-- ===== src/SelfTest.antt =====
-- cmd/self-test/main.go: the pressure test. Its global maps of times are the record `Times`; the
-- handlers of the watched pods and deployments write them.
pub mod Statistic
pub mod Waiting
pub mod Pressure
pub mod Running
mod Tests
use module_controller.Prelude.{
  ℕ, String, Bool, true, false, Option, none, some, List, [], ◌∷◌, ◌==◌, ◌&&◌, any, if◌then◌else◌,
  lookup, insert,
}
use module_controller.Prelude.Int.{ℤ, eqb_ℤ}
use module_controller.Go.Effect.{Outcome, returns, panics, Result, ok, err}
use module_controller.Go.Strconv.{itoa}
use module_controller.Platform.{Platform}
use module_controller.Platform.Kube.{NodeCondition, Deployment}

-- The pods and deployments that an event carries, with the fields that the handlers read. The
-- conditions of a pod have the shape of a node's.
pub record PodEvent : Type 0 where
  pub name : String
  pub deleted : Bool
  pub conditions : List NodeCondition

pub record DeploymentEvent : Type 0 where
  pub name : String
  pub deleted : Bool
  pub ready_replicas : ℤ
  pub replicas : Option ℤ

-- From a name to a time.
pub record Times : Type 0 where
  pub pod_name_to_create_time : List (String × ℤ)
  pub pod_name_to_ready_time : List (String × ℤ)
  pub deployment_name_to_create_time : List (String × ℤ)
  pub deployment_name_to_ready_time : List (String × ℤ)

-- What `test` starts with.
abbrev pub no_times : Times
no_times = record {
  pod_name_to_create_time = [];
  pod_name_to_ready_time = [];
  deployment_name_to_create_time = [];
  deployment_name_to_ready_time = [];
}

-- The loop over the conditions, with its `break`.
abbrev pub has_condition : String → String → List NodeCondition → Bool
has_condition kind status conditions =
    any (λ c. (c.kind == kind) && (c.status == status)) conditions

unfoldable pub pod_created : ℤ → PodEvent → Times → Times
unfolding insert
pod_created now pod t = record t {
  pod_name_to_create_time = insert pod.name now t.pod_name_to_create_time;
}

-- The first time at which a pod is ready is kept. `pod_ready` is corev1.PodReady.
module _ (p : Platform) (pod_ready : String) where
  set_pod_ready : ℤ → PodEvent → Option ℤ → Times → Times
  unfolding insert
  set_pod_ready now pod (some earlier) t = t
  set_pod_ready now pod none t =
      if has_condition pod_ready p.condition_true pod.conditions
      then record t { pod_name_to_ready_time = insert pod.name now t.pod_name_to_ready_time }
      else t

  unfoldable pub pod_updated : ℤ → PodEvent → Times → Times
  unfolding set_pod_ready lookup
  pod_updated now pod t =
      if pod.deleted then t else set_pod_ready now pod (lookup pod.name t.pod_name_to_ready_time) t

-- A nil `Spec.Replicas` is dereferenced.
set_deployment_ready : ℤ → DeploymentEvent → Option ℤ → Times → Outcome Times
unfolding insert
set_deployment_ready now d none t = panics
set_deployment_ready now d (some replicas) t = returns (
    if eqb_ℤ d.ready_replicas replicas
    then record t {
      deployment_name_to_ready_time = insert d.name now t.deployment_name_to_ready_time;
    }
    else t)

unfoldable pub deployment_updated : ℤ → DeploymentEvent → Times → Outcome Times
unfolding set_deployment_ready
deployment_updated now d t =
    if d.deleted then returns t else set_deployment_ready now d d.replicas t

-- strings.ReplaceAll, and yaml.Unmarshal into a deployment.
pub record Yaml : Type 0 where
  pub replace_all : String → String → String → String
  pub unmarshal : String → Result Deployment

abbrev or_panic : Result Deployment → Outcome Deployment
or_panic (ok d) = returns d
or_panic (err e) = panics

unfoldable pub construct_module_deployment : Yaml → String → ℤ → ℤ → String → Outcome Deployment
unfolding itoa
construct_module_deployment y template base_num biz_index biz_version =
    let numbered = y.replace_all template "{baseNum}" (itoa base_num) in
    let indexed = y.replace_all numbered "{bizIndex}" (itoa biz_index) in
    or_panic (y.unmarshal (y.replace_all indexed "{bizVersion}" biz_version))
