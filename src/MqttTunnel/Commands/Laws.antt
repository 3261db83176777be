-- ===== src/MqttTunnel/Commands/Laws.antt =====
-- Where the commands of the tunnel go.
use module_controller.Prelude.{String, ◌≡◌, ◌<>◌, refl, true}
use module_controller.Platform.{Platform}
use module_controller.Platform.Kube.{Container}
use module_controller.Platform.Ark.{BizModel}
use module_controller.Utils.{get_base_identity_from_topic}
use module_controller.Utils.Topics.{NoSlash, identity-command_topic}
use module_controller.MqttClient.{Paho, qos0}
use module_controller.MqttTunnel.{MqttTunnel}
use module_controller.MqttTunnel.Commands.{
  command_topic, biz_model_of, fetch_health_data, query_all_biz_status_data, start_biz, stop_biz,
}

module _ (p : Platform) {W : Type 0} (paho : Paho W) (marshal : BizModel → String) where
  -- Each of the four operations publishes one retained message, at quality of service 0, to the topic
  -- of its own command for the node's base: `{}` for the health and for the bizs, and for a start or
  -- a stop the biz model whose version is the pod key. A base reads its own ID from such a topic, if
  -- neither the environment nor the ID has a slash.
  pub commands_published :
      (t : MqttTunnel W) (node_name pod_key : String) (container : Container) (w : W)
      → NoSlash t.env
      → NoSlash (p.extract_node_id_from_node_name node_name)
      → let id = p.extract_node_id_from_node_name node_name in
        let topic : String → String =
          λ command. "koupleless_" <> t.env <> "/" <> id <> "/" <> command in
        let biz = marshal (biz_model_of p paho marshal pod_key container) in
        (fetch_health_data p paho marshal t node_name w
          ≡ paho.publish (topic "health") qos0 true "{}" w)
        × (query_all_biz_status_data p paho marshal t node_name w
            ≡ paho.publish (topic "queryAllBiz") qos0 true "{}" w)
        × (start_biz p paho marshal t node_name pod_key container w
            ≡ paho.publish (topic "installBiz") qos0 true biz w)
        × (stop_biz p paho marshal t node_name pod_key container w
            ≡ paho.publish (topic "uninstallBiz") qos0 true biz w)
        × ((biz_model_of p paho marshal pod_key container).biz_model_version ≡ pod_key)
        × ((command : String) → get_base_identity_from_topic (topic command) ≡ id)
  unfolding command_topic fetch_health_data query_all_biz_status_data start_biz stop_biz
  commands_published t node_name pod_key container w h k = (
    refl,
    refl,
    refl,
    refl,
    refl,
    λ command.
        identity-command_topic t.env (p.extract_node_id_from_node_name node_name) command h k,
  )
