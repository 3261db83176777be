-- ===== src/Samples.antt =====
-- Concrete values for the tests: the platform's names, a cluster that records its patches, and a base.
use module_controller.Prelude.{String, none, some, List, [], ◌∷◌, ◌++◌, ◌<>◌, refl, lookup}
use module_controller.Prelude.Int.{ℤ, pos}
use module_controller.Go.Effect.{ok}
use module_controller.Platform.{Platform}
use module_controller.Platform.Kube.{Container, Deployment, Node}
use module_controller.Model.{BaseStatus, label_key_of_vpod_deployment_strategy}
use module_controller.Controller.{Cluster}
use module_controller.Controller.ClusterName.{get_cluster_name_from_deployment}
use module_controller.Controller.Replicas.Laws.{PatchLog, IsReadable}

abbrev pub platform : Platform
platform = record {
  format_node_name = λ id env. id;
  extract_node_id_from_node_name = λ name. name;
  convert_byte_num_to_resource_quantity = λ n. "1Mi";
  get_biz_unique_key = λ name version. name <> ":" <> version;
  label_key_of_base_cluster_name = "base.koupleless.io/cluster-name";
  label_key_of_base_host_name = "base.koupleless.io/host-name";
  label_key_of_base_container_name = "base.koupleless.io/container-name";
  label_key_of_env = "virtual-kubelet.koupleless.io/env";
  label_key_of_component = "virtual-kubelet.koupleless.io/component";
  component_vnode = "vnode";
  node_state_activated = "ACTIVATED";
  node_state_deactivated = "DEACTIVATED";
  biz_state_activated = "ACTIVATED";
  biz_state_broken = "BROKEN";
  biz_state_stopped = "STOPPED";
  code_success = "00000";
  label_key_of_trace_id = "virtual-kubelet.koupleless.io/trace-id";
  node_running = "Running";
  node_ready = "Ready";
  condition_true = "True";
  label_hostname = "kubernetes.io/hostname";
  resource_memory = "memory";
  file_url = λ image. image;
  upper_table = λ c. c;
}

abbrev pub container : Container
container = record {
  name = "biz1";
  image = "file:///biz1.jar";
  env = record { name = "BIZ_VERSION"; value = "1.0" } ∷ [];
}

abbrev pub node : Node
node = record {
  name = "vnode.base1";
  labels = ("base.koupleless.io/cluster-name", "cluster1") ∷ [];
  phase = "Running";
  conditions = record { kind = "Ready"; status = "True" } ∷ [];
}

-- A peer deployment of the node's cluster with three replicas.
abbrev pub deployment : Deployment
deployment = record {
  name = "biz1";
  labels =
      ("base.koupleless.io/cluster-name", "cluster1")
      ∷ (label_key_of_vpod_deployment_strategy, "peer")
      ∷ [];
  creation_timestamp = pos 1000;
  replicas = some (pos 3);
  containers = container ∷ [];
  node_selector = none;
  affinity = none;
}

pub deployment-IsReadable : IsReadable platform deployment
unfolding get_cluster_name_from_deployment lookup
deployment-IsReadable = record {
  count = pos 3;
  defaulted = refl;
  cluster_name = "cluster1";
  named = refl;
}

-- One node and one deployment; the world is the list of patches.
abbrev pub cluster : String → Cluster (List (String × ℤ))
cluster switch = record {
  list_nodes = λ labels w. ok (node ∷ []);
  list_deployments = λ labels w. ok (deployment ∷ []);
  patch_replicas = λ d n w. (none, w ++ (d.name, n) ∷ []);
  func_track = λ trace labels f w. (none, (f w).1);
  get_env = λ name other w. switch;
}

abbrev pub log : (switch : String) → PatchLog (cluster switch)
log switch = record {
  patched = λ w. w;
  patch_sends = λ d n w. refl;
  track_runs = λ t l f w. refl;
  patch_keeps_nodes = λ d n w l. refl;
  track_keeps_nodes = λ t l f w k. refl;
}

abbrev pub base : BaseStatus
base = record {
  base_metadata = record {
    identity = "base1";
    version = "1.0";
    cluster_name = "cluster1";
    name = "base";
  };
  local_ip = "10.0.0.1";
  local_host_name = "host1";
  port = pos 8080;
  state = "activated";
}
