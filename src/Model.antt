-- ===== src/Model.antt =====
-- common/model: the messages of the bases and the constants.
use module_controller.Prelude.{String, List, ◌<>◌}
use module_controller.Prelude.Int.{ℤ}
use module_controller.Platform.Ark.{ArkBizStateRecord, ArkResponseData, ArkBatchInstallResponse}

pub record ArkMqttMsg {ℓ} (T : Type ℓ) : Type ℓ where
  pub publish_timestamp : ℤ
  pub payload : T

pub record BaseMetadata : Type 0 where
  pub identity : String
  pub version : String
  pub cluster_name : String
  pub name : String

pub record BaseStatus : Type 0 where
  pub base_metadata : BaseMetadata
  pub local_ip : String
  pub local_host_name : String
  pub port : ℤ
  pub state : String

-- module_tunnels/koupleless_http_tunnel/ark_service/model.go
pub record ArkResponse {ℓ} (T : Type ℓ) : Type ℓ where
  pub code : String
  pub payload : T
  pub message : String
  pub error_stack_trace : String
  pub base_identity : String

pub record BizOperationResponse : Type 0 where
  pub command : String
  pub biz_name : String
  pub biz_version : String
  pub biz_model_version : String
  pub response : ArkResponse ArkResponseData

pub record BatchInstallBizResponse : Type 0 where
  pub command : String
  pub response : ArkResponse ArkBatchInstallResponse

pub record QueryBaselineRequest : Type 0 where
  pub identity : String
  pub cluster_name : String
  pub version : String

pub record ArkSimpleBizInfoData : Type 0 where
  pub name : String
  pub version : String
  pub state : String
  pub latest_state_record : ArkBizStateRecord

abbrev pub ArkSimpleAllBizInfoData : Type 0
ArkSimpleAllBizInfoData = List ArkSimpleBizInfoData

abbrev pub label_key_of_skip_replicas_control : String
label_key_of_skip_replicas_control = "virtual-kubelet.koupleless.io/replicas-control"

abbrev pub label_key_of_vpod_deployment_strategy : String
label_key_of_vpod_deployment_strategy = "virtual-kubelet.koupleless.io/strategy"

abbrev pub label_key_of_kubelet_proxy_service : String
label_key_of_kubelet_proxy_service = "virtual-kubelet.koupleless.io/kubelet-proxy-service"

abbrev pub vpod_deployment_strategy_peer : String
vpod_deployment_strategy_peer = "peer"

abbrev pub env_key_of_client_id : String
env_key_of_client_id = "CLIENT_ID"

abbrev pub env_key_of_namespace : String
env_key_of_namespace = "NAMESPACE"

abbrev pub env_key_of_cluster_mode_enabled : String
env_key_of_cluster_mode_enabled = "IS_CLUSTER"

abbrev pub env_key_of_workload_max_level : String
env_key_of_workload_max_level = "WORKLOAD_MAX_LEVEL"

abbrev pub env_key_of_vnode_worker_num : String
env_key_of_vnode_worker_num = "VNODE_WORKER_NUM"

abbrev pub env_key_of_kubelet_proxy_enabled : String
env_key_of_kubelet_proxy_enabled = "KUBELET_PROXY_ENABLED"

abbrev pub env_key_of_kubelet_proxy_port : String
env_key_of_kubelet_proxy_port = "KUBELET_PROXY_PORT"

abbrev pub component_module : String
component_module = "module"

abbrev pub component_module_deployment : String
component_module_deployment = "module-deployment"

abbrev pub code_kubernetes_operation_failed : String
code_kubernetes_operation_failed = "00003"

abbrev pub command_health : String
command_health = "health"

abbrev pub command_query_all_biz : String
command_query_all_biz = "queryAllBiz"

abbrev pub command_install_biz : String
command_install_biz = "installBiz"

abbrev pub command_uninstall_biz : String
command_uninstall_biz = "uninstallBiz"

abbrev pub command_batch_install_biz : String
command_batch_install_biz = "batchInstallBiz"

abbrev pub label_key_of_tunnel_port : String
label_key_of_tunnel_port = "base.koupleless.io/tunnel-port"

-- The topics of consts.go with the environment, and the node where the pattern names one, put in.
abbrev pub base_heart_beat_topic : String → String
base_heart_beat_topic env = "koupleless_" <> env <> "/+/base/heart"

abbrev pub base_query_baseline_topic : String → String
base_query_baseline_topic env = "koupleless_" <> env <> "/+/base/queryBaseline"

abbrev pub base_health_topic : String → String → String
base_health_topic env node_id = "koupleless_" <> env <> "/" <> node_id <> "/base/health"

abbrev pub base_simple_biz_topic : String → String → String
base_simple_biz_topic env node_id = "koupleless_" <> env <> "/" <> node_id <> "/base/simpleBiz"

abbrev pub base_all_biz_topic : String → String → String
base_all_biz_topic env node_id = "koupleless_" <> env <> "/" <> node_id <> "/base/biz"

abbrev pub base_biz_operation_response_topic : String → String → String
base_biz_operation_response_topic env node_id =
    "koupleless_" <> env <> "/" <> node_id <> "/base/bizOperation"

abbrev pub base_batch_install_biz_response_topic : String → String → String
base_batch_install_biz_response_topic env node_id =
    "koupleless_" <> env <> "/" <> node_id <> "/base/batchInstallBizResponse"

abbrev pub base_baseline_response_topic : String → String → String
base_baseline_response_topic env node_id =
    "koupleless_" <> env <> "/" <> node_id <> "/base/baseline"
