-- ===== src/Platform.antt =====
-- What the program takes from code that is not in the repository: names and constants of
-- virtual-kubelet and Kubernetes, a function of arkctl, and Go's Unicode table. Then the data types
-- of those libraries, with the fields that the program reads or writes.
pub mod Kube
pub mod Ark
pub mod Vnode
use Prim.Native.Char.{Char}
use module_controller.Prelude.{String}
use module_controller.Prelude.Int.{ℤ}

pub record Platform : Type 0 where
  -- virtual-kubelet/common/utils
  pub format_node_name : String → String → String
  pub extract_node_id_from_node_name : String → String
  pub convert_byte_num_to_resource_quantity : ℤ → String
  pub get_biz_unique_key : String → String → String
  -- virtual-kubelet/model
  pub label_key_of_base_cluster_name : String
  pub label_key_of_base_host_name : String
  pub label_key_of_base_container_name : String
  pub label_key_of_env : String
  pub label_key_of_component : String
  pub component_vnode : String
  pub node_state_activated : String
  pub node_state_deactivated : String
  pub biz_state_activated : String
  pub biz_state_broken : String
  pub biz_state_stopped : String
  pub code_success : String
  pub label_key_of_trace_id : String
  -- k8s.io/api/core/v1
  pub node_running : String
  pub node_ready : String
  pub condition_true : String
  pub label_hostname : String
  pub resource_memory : String
  -- arkctl/common/fileutil
  pub file_url : String → String
  -- unicode.ToUpper above the ASCII characters
  pub upper_table : Char → Char
