-- ===== src/MqttTunnel/Commands.antt =====
-- FetchHealthData, QueryAllBizStatusData, StartBiz and StopBiz: each publishes a command for the
-- base of a node. `marshal` is what json.Marshal makes of a request, whose biz model is all it has.
pub mod Laws
use module_controller.Prelude.{String, Option}
use module_controller.Go.Effect.{Error}
use module_controller.Platform.{Platform}
use module_controller.Platform.Kube.{Container}
use module_controller.Platform.Ark.{BizModel}
use module_controller.Model.{
  command_health, command_query_all_biz, command_install_biz, command_uninstall_biz,
}
use module_controller.Utils.{format_arklet_command_topic, translate_core_v1_container_to_biz_model}
use module_controller.MqttClient.{Paho, publish, qos0}
use module_controller.MqttTunnel.{MqttTunnel}

module _ (p : Platform) {W : Type 0} (paho : Paho W) (marshal : BizModel → String) where
  -- The topic of a command for a node.
  unfoldable pub command_topic : MqttTunnel W → String → String → String
  command_topic t node_name command =
      format_arklet_command_topic t.env (p.extract_node_id_from_node_name node_name) command

  abbrev pub biz_model_of : String → Container → BizModel
  biz_model_of pod_key container = record (translate_core_v1_container_to_biz_model p container) {
    biz_model_version = pod_key;
  }

  unfoldable pub fetch_health_data : MqttTunnel W → String → W → Option Error × W
  unfolding publish command_topic
  fetch_health_data t node_name = publish paho (command_topic t node_name command_health) qos0 "{}"

  unfoldable pub query_all_biz_status_data : MqttTunnel W → String → W → Option Error × W
  unfolding publish command_topic
  query_all_biz_status_data t node_name =
      publish paho (command_topic t node_name command_query_all_biz) qos0 "{}"

  unfoldable pub start_biz : MqttTunnel W → String → String → Container → W → Option Error × W
  unfolding publish command_topic translate_core_v1_container_to_biz_model
  start_biz t node_name pod_key container =
      publish paho (command_topic t node_name command_install_biz) qos0
        (marshal (biz_model_of pod_key container))

  unfoldable pub stop_biz : MqttTunnel W → String → String → Container → W → Option Error × W
  unfolding publish command_topic translate_core_v1_container_to_biz_model
  stop_biz t node_name pod_key container =
      publish paho (command_topic t node_name command_uninstall_biz) qos0
        (marshal (biz_model_of pod_key container))
