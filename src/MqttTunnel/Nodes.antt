-- ===== src/MqttTunnel/Nodes.antt =====
-- RegisterNode and UnRegisterNode: the topics of a node.
pub mod Laws
use module_controller.Prelude.{String, Option, none, some}
use module_controller.Go.Effect.{Error}
use module_controller.Platform.{Platform}
use module_controller.Model.{
  base_health_topic, base_simple_biz_topic, base_all_biz_topic, base_biz_operation_response_topic,
  base_batch_install_biz_response_topic,
}
use module_controller.MqttClient.{
  Handler, health, simple_biz, all_biz, biz_operation, batch_install, Paho, qos1, sub, unsub,
}
use module_controller.MqttTunnel.{MqttTunnel}

module _ {W : Type 0} where
  -- `if err != nil { return err }` between two calls.
  abbrev pub then_on : (W → Option Error × W) → Option Error × W → Option Error × W
  then_on rest (none, w) = rest w
  then_on rest (some e, w) = (some e, w)

  infixl 12 ◌>=>◌
  abbrev pub ◌>=>◌ : (W → Option Error × W) → (W → Option Error × W) → W → Option Error × W
  ◌>=>◌ m n w = then_on n (m w)

module _ (p : Platform) {W : Type 0} (paho : Paho W) where
  unfoldable pub subscribe_topics : String → String → W → Option Error × W
  unfolding sub
  subscribe_topics env id =
      sub paho (base_health_topic env id) qos1 health
      >=> sub paho (base_simple_biz_topic env id) qos1 simple_biz
      >=> sub paho (base_all_biz_topic env id) qos1 all_biz
      >=> sub paho (base_biz_operation_response_topic env id) qos1 biz_operation
      >=> sub paho (base_batch_install_biz_response_topic env id) qos1 batch_install

  unfoldable pub register_node : MqttTunnel W → String → W → Option Error × W
  unfolding subscribe_topics
  register_node t node_name = subscribe_topics t.env (p.extract_node_id_from_node_name node_name)

  unfoldable pub unregister_node : MqttTunnel W → String → W → W
  unfolding unsub
  unregister_node t node_name w =
      let id = p.extract_node_id_from_node_name node_name in
      unsub paho (base_biz_operation_response_topic t.env id) (
        unsub paho (base_all_biz_topic t.env id)
          (unsub paho (base_simple_biz_topic t.env id) (unsub paho (base_health_topic t.env id) w)))
