-- ===== src/Controller/Replicas.antt =====
-- updateDeploymentReplicas and updateDeploymentReplicasOfKubernetes. The token around the loop is in
-- UpdateToken.antt.
pub mod Laws
pub mod Settling
use module_controller.Prelude.{
  ℕ, String, Bool, true, false, not, ◌≡◌, Option, none, some, List, [], ◌∷◌, ◌==◌, ◌||◌, index,
  if◌then◌else◌,
}
use module_controller.Prelude.Int.{ℤ, pos, int32, eqb_ℤ}
use module_controller.Go.Effect.{
  Error, not_found, Result, ok, err, Go, returns, panics, pure, lift, for_each, ◌>>=◌, ◌>>◌,
}
use module_controller.Platform.{Platform}
use module_controller.Platform.Kube.{Deployment}
use module_controller.Model.{
  label_key_of_vpod_deployment_strategy, vpod_deployment_strategy_peer,
  label_key_of_skip_replicas_control, code_kubernetes_operation_failed,
}
use module_controller.Controller.{Cluster}
use module_controller.Controller.ClusterName.{get_cluster_name_from_deployment}
use module_controller.Controller.ReadyNodes.{get_ready_node_count}

-- Whether the labels hand the deployment's replicas to the controller.
abbrev pub is_controlled : Deployment → Bool
is_controlled d = not (
    not (index label_key_of_vpod_deployment_strategy d.labels == vpod_deployment_strategy_peer)
    || index label_key_of_skip_replicas_control d.labels == "true")

module _ (p : Platform) {W : Type 0} (c : Cluster W) where
  -- The error of Patch decides what is returned: a missing deployment is no failure.
  abbrev patch_result : Option Error → Option Error × String
  patch_result none = (none, p.code_success)
  patch_result (some (not_found s)) = (none, p.code_success)
  patch_result (some e) = (some e, code_kubernetes_operation_failed)

  unfoldable pub update_deployment_replicas_of_kubernetes :
      ℕ → Deployment → W → (Option Error × String) × W
  unfolding int32
  update_deployment_replicas_of_kubernetes replicas d w =
      let (e, w') = c.patch_replicas d (int32 (pos replicas)) w in (patch_result e, w')

  -- `*deployment.Spec.Replicas` panics on a nil pointer. The error of the tracked update is logged.
  update_unless_equal : Deployment → ℕ → Option ℤ → Go W Unit
  unfolding int32 update_deployment_replicas_of_kubernetes
  update_unless_equal d count none w = (panics, w)
  update_unless_equal d count (some replicas) w =
      if not (eqb_ℤ (int32 (pos count)) replicas)
      then (
        returns tt,
        (c.func_track (index p.label_key_of_trace_id d.labels) d.labels
            (update_deployment_replicas_of_kubernetes count d) w).1,
      )
      else (returns tt, w)

  sync_with_count : Deployment → Result ℕ → Go W Unit
  unfolding update_unless_equal
  sync_with_count d (err e) = pure tt
  sync_with_count d (ok count) = update_unless_equal d count d.replicas

  sync_in_cluster : Deployment → String → Go W Unit
  unfolding sync_with_count
  sync_in_cluster d cluster_name w =
      if cluster_name == ""
      then (returns tt, w)
      else sync_with_count d (get_ready_node_count p c cluster_name w) w

  -- One round of the loop; every `continue` is a return of the round.
  unfoldable pub sync_deployment : Deployment → Go W Unit
  unfolding sync_in_cluster
  sync_deployment d w =
      if is_controlled d
      then (lift (get_cluster_name_from_deployment p d) >>= sync_in_cluster d) w
      else (returns tt, w)

  unfoldable pub update_deployment_replicas : List Deployment → Go W Unit
  unfolding sync_deployment for_each
  update_deployment_replicas deployments w =
      if c.get_env "ENABLE_MODULE_REPLICAS_SYNC_WITH_BASE" "false" w == "true"
      then for_each sync_deployment deployments w
      else (returns tt, w)
