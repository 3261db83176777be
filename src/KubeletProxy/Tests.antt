-- ===== src/KubeletProxy/Tests.antt =====
-- Requests for logs on one virtual pod, its node and its base pod.
use module_controller.Prelude.{
  String, false, ◌≡◌, refl, none, List, [], ◌∷◌, ◌==◌, ◌<>◌, index, lookup, if◌then◌else◌, eq_iff,
  arith,
}
use module_controller.Prelude.Int.{pos}
use module_controller.Go.Effect.{errdefs_not_found, not_found, Result, ok, err}
use module_controller.Platform.Kube.{Pod, Node}
use module_controller.Samples.{platform}
use module_controller.KubeletProxy.{ContainerLogOpts, PodLogOptions, PodHandler, get_container_logs}
use module_controller.KubeletProxy.Laws.{
  Scheduled, no_pod, get_container_logs-Missing, get_container_logs-base,
}

abbrev vpod : Pod
vpod = record { name = "biz1"; namespace = "default"; labels = []; node_name = "vnode.base1" }

abbrev base_pod : Pod
base_pod = record { name = "base1"; namespace = "default"; labels = []; node_name = "node1" }

abbrev vnode : Node
vnode = record {
  name = "vnode.base1";
  labels = ("base.koupleless.io/host-name", "base1") ∷ [];
  phase = "Running";
  conditions = [];
}

abbrev pod_of : String → Result Pod
pod_of name =
    if name == "biz1"
    then ok vpod
    else if name == "base1"
    then ok base_pod
    else err (not_found "no such pod")

-- The world is the list of the names that were asked for.
abbrev handler : PodHandler (List String) String
handler = record {
  client_set = record {
    get_pod = λ namespace name w. (pod_of name, name ∷ w);
    get_node = λ name w. (ok vnode, name ∷ w);
    get_logs = λ namespace name options w. (ok "a line", "logs" ∷ w);
    log_error = λ name e w. w;
    or_else = λ s t. if s == "" then t else s;
    not_found_text = λ resource name. resource <> " " <> name;
  };
}

abbrev opts : ContainerLogOpts
opts = record {
  tail = pos 10;
  limit_bytes = pos 0;
  timestamps = false;
  follow = false;
  previous = false;
  since_seconds = pos 0;
  since_time = none;
}

get_container_logs-Missing_example :
    get_container_logs platform handler "default" "biz2" "biz2" opts []
    ≡ (err (errdefs_not_found "pods biz2"), "biz2" ∷ [])
get_container_logs-Missing_example =
    get_container_logs-Missing platform handler "default" "biz2" "biz2" opts [] "pods biz2"
      ("biz2" ∷ []) (no_pod "no such pod" ("biz2" ∷ []) refl)

abbrev scheduled : Scheduled platform handler "default" "biz1" []
scheduled = record {
  vpod = vpod;
  vnode = vnode;
  between = "biz1" ∷ [];
  after = "vnode.base1" ∷ "biz1" ∷ [];
  pod_found = refl;
  node_found = refl;
}

get_container_logs-base_example :
    (options : PodLogOptions) × (get_container_logs platform handler "default" "biz1" "biz1" opts []
      ≡ (ok "a line", "logs" ∷ "base1" ∷ "vnode.base1" ∷ "biz1" ∷ []))
    × (options.container ≡ "base")
    × (options.since_time ≡ none)
unfolding index lookup
get_container_logs-base_example =
    get_container_logs-base platform handler "default" "biz1" "biz1" opts [] scheduled base_pod
      ("base1" ∷ "vnode.base1" ∷ "biz1" ∷ []) (record { chosen = λ s t. refl })
      (λ e. ground (arith, (eq_iff "base1" "").1 e)) refl
