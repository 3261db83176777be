-- ===== src/MockBase/Mqtt/Answers.antt =====
-- An uninstallation from the tunnel to the base and back: the command's message, the task of the
-- base, and its answer in the hands of the MQTT tunnel.
use module_controller.Prelude.{
  String, true, ◌≡◌, ◌∙◌, refl, ap, Option, none, some, lookup, delete, lookup-delete,
  if◌then◌else◌, ◌==◌,
}
use module_controller.Prelude.Int.{ℤ}
use module_controller.Go.Effect.{Error, Outcome}
use module_controller.Platform.{Platform}
use module_controller.Platform.Ark.{BizModel}
use module_controller.Platform.Vnode.{BizStatusData}
use module_controller.Model.{
  ArkMqttMsg, BizOperationResponse, command_uninstall_biz, base_biz_operation_response_topic,
}
use module_controller.Utils.{format_arklet_command_topic}
use module_controller.Utils.Topics.{NoSlash, identity-node_topics}
use module_controller.MqttClient.{Paho, publish, qos1}
use module_controller.MqttTunnel.{MqttTunnel}
use module_controller.MqttTunnel.Messages.{
  biz_operation_response_callback, operation_status, node_of,
}
use module_controller.MqttTunnel.Messages.Responses.{uninstalled, operation_reports}
use module_controller.MockBase.{get_biz_identity}
use module_controller.MockBase.Mqtt.{
  Json, Running, MockMqttBase, uninstall_biz, process_command, operation_success,
}
use module_controller.MockBase.Mqtt.Tasks.{
  run_task, process_uninstall_biz, publish_operation, publish_to,
}
use module_controller.MockBase.Mqtt.Dispatch.{process_command-format_arklet_command_topic}

module _ (p : Platform) (j : Json) {W : Type 0} (paho : Paho W) (now : W → ℤ) (ack : W → W)
    (t : MqttTunnel W) where
  -- The topic on which the base answers to operations.
  abbrev answer_topic : MockMqttBase → String
  answer_topic b = base_biz_operation_response_topic b.env b.base_metadata.identity

  -- The answer to the uninstallation of a biz reaches the tunnel, which reads what the base wrote.
  pub record IsAnswered (b : MockMqttBase) (m : BizModel) : Type 0 where
    pub delivered :
        (w : W)
        → let msg : ArkMqttMsg BizOperationResponse = record {
          publish_timestamp = now w;
          payload = operation_success command_uninstall_biz m.biz_name m.biz_version;
        } in
          paho.publish (answer_topic b) qos1 true (j.write_operation msg) w
          ≡ (none, (biz_operation_response_callback p now ack t (answer_topic b) (some msg) w).1)

  -- The message that the tunnel sends to stop a biz makes a reachable base run an uninstallation. It
  -- removes the biz and no other, and the tunnel reports the biz once, as stopped, for the node of
  -- the base. The environment and the identity must have no slash, and the base must read the biz
  -- that was sent.
  pub uninstall_biz-reports :
      (payload : String) (r : Running W) (m : BizModel) (f : String → BizStatusData → W → W)
      → r.base.reachable ≡ true
      → j.parse_biz_model payload ≡ m
      → NoSlash r.base.env
      → NoSlash r.base.base_metadata.identity
      → t.callbacks.on_single_biz_status_arrived ≡ some f
      → IsAnswered r.base m
      → let id = r.base.base_metadata.identity in
        let topic = format_arklet_command_topic r.base.env id command_uninstall_biz in
        let r' = run_task j paho now (uninstall_biz payload) r in
        (status : BizStatusData) × (process_command topic payload r.base
          ≡ some (uninstall_biz payload))
        × (r'.world ≡ ack (f (p.format_node_name id t.env) status r.world))
        × (status.state ≡ p.biz_state_stopped)
        × (status.key ≡ get_biz_identity m)
        × ((k : String)
            → lookup k r'.base.biz_infos
              ≡ (if get_biz_identity m == k then none else lookup k r.base.biz_infos))
  unfolding run_task process_uninstall_biz publish_operation publish_to publish get_biz_identity
      node_of
  uninstall_biz-reports payload r m f up reads no_slash no_slash' set answered =
      let d = operation_success command_uninstall_biz m.biz_name m.biz_version in
      let status = operation_status d (now r.world) p.biz_state_stopped " succeed" in
      let answer : BizModel → ArkMqttMsg BizOperationResponse = λ x. record {
        publish_timestamp = now r.world;
        payload = operation_success command_uninstall_biz x.biz_name x.biz_version;
      } in
      let (of_health, of_simple, of_all, of_operation, of_batch, of_baseline) =
        identity-node_topics r.base.env r.base.base_metadata.identity no_slash no_slash' in
      let (health, query, install, uninstall) =
        process_command-format_arklet_command_topic r.base.env r.base.base_metadata.identity payload
          r.base up in
      (
        status,
        uninstall,
        ap
              (λ x.
                (paho.publish (answer_topic r.base) qos1 true (j.write_operation (answer x))
                  r.world).1)
              reads
            ∙ ap (λ (o : Option Error × W). o.1) (answered.delivered r.world)
            ∙ ap (λ (o : Outcome Unit × W). o.1)
                (operation_reports p now ack t (answer_topic r.base) p.biz_state_stopped " succeed"
                  (answer m) f r.world set (uninstalled refl refl))
            ∙ ap (λ id. ack (f (p.format_node_name id t.env) status r.world)) of_operation,
        refl,
        refl,
        λ k.
            ap (λ x. lookup k (delete (get_biz_identity x) r.base.biz_infos)) reads
            ∙ lookup-delete (get_biz_identity m) k r.base.biz_infos,
      )
