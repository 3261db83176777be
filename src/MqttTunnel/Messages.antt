-- ===== src/MqttTunnel/Messages.antt =====
-- The handlers of the messages that the bases publish. Each gets the topic and the decoded payload,
-- none if it cannot be decoded; `now` reads the clock, `ack` acknowledges the message, also after a
-- panic.
pub mod Laws
pub mod Responses
use module_controller.Prelude.{
  String, Bool, not, Option, none, some, List, [], ◌∷◌, map, ◌==◌, ◌<>◌, if◌then◌else◌,
}
use module_controller.Prelude.Int.{ℤ, pos}
use module_controller.Go.Effect.{Error, Outcome, returns, panics, Go, ◌>>=◌, pure, lift}
use module_controller.Go.Strings.{to_upper}
use module_controller.Platform.{Platform}
use module_controller.Platform.Kube.{Container}
use module_controller.Platform.Ark.{
  BizModel, ArkBizInfo, ArkResponseData, HealthInfo, GenericArkResponseBase,
}
use module_controller.Platform.Vnode.{BizStatusData}
use module_controller.Model.{
  ArkMqttMsg, BaseStatus, BaseMetadata, QueryBaselineRequest, ArkSimpleAllBizInfoData,
  BizOperationResponse, BatchInstallBizResponse, command_install_biz, command_uninstall_biz,
  command_batch_install_biz,
}
use module_controller.Utils.{
  get_base_identity_from_topic, expired, convert_base_status_to_node_info,
  convert_base_metadata_to_baseline_query, convert_health_data_to_node_status,
  translate_simple_biz_data_to_biz_infos, translate_biz_infos_to_container_statuses,
  translate_core_v1_container_to_biz_model, format_baseline_response_topic, get_biz_identity,
}
use module_controller.Tunnel.{call_both, call_if_set, call_if_set_both}
use module_controller.MqttClient.{Paho, publish, qos1}
use module_controller.MqttTunnel.{MqttTunnel}

-- `1000*10`, in milliseconds.
abbrev pub max_live : ℤ
max_live = pos 10000

-- The status that an operation's response is reported as.
abbrev pub operation_status : BizOperationResponse → ℤ → String → String → BizStatusData
operation_status d time state outcome = record {
  key = get_biz_identity d.biz_name d.biz_version;
  name = d.biz_name;
  state = state;
  change_time = time;
  reason = d.biz_name <> ":" <> d.biz_version <> " " <> d.command <> outcome;
  message = d.response.payload.message;
}

module _ {W : Type 0} (ack : W → W) where
  -- `defer msg.Ack()`.
  abbrev pub acked : {A : Type 0} → Go W A → Go W A
  acked m w = let (r, w') = m w in (r, ack w')

module _ {W : Type 0} (now : W → ℤ) {T : Type 0} {A : Type 0} where
  -- A message that cannot be decoded, or that is too old, is dropped.
  unfoldable pub fresh : A → (ArkMqttMsg T → Go W A) → Option (ArkMqttMsg T) → Go W A
  unfolding expired
  fresh dropped handle none w = (returns dropped, w)
  fresh dropped handle (some msg) w =
      if expired (now w) msg.publish_timestamp max_live then (returns dropped, w) else handle msg w

module _ (p : Platform) {W : Type 0} (now : W → ℤ) (ack : W → W) where
  -- The name of the node whose topic it is.
  unfoldable pub node_of : MqttTunnel W → String → String
  node_of t topic = p.format_node_name (get_base_identity_from_topic topic) t.env

  unfoldable pub heart_beat_msg_callback : MqttTunnel W → Option (ArkMqttMsg BaseStatus) → Go W Unit
  unfolding fresh
  heart_beat_msg_callback t body = acked ack (
      fresh now tt
        (λ msg.
          call_if_set t.callbacks.on_base_discovered
            (convert_base_status_to_node_info p msg.payload t.env))
        body)

  unfoldable pub health_msg_callback :
      MqttTunnel W → String → Option (ArkMqttMsg (GenericArkResponseBase HealthInfo)) → Go W Unit
  unfolding fresh node_of
  health_msg_callback t topic body = acked ack (
      fresh now tt
        (λ msg w.
          if msg.payload.code == "SUCCESS"
          then call_if_set_both t.callbacks.on_base_status_arrived (node_of t topic)
              (convert_health_data_to_node_status p msg.payload.payload.health_data) w
          else (returns tt, w))
        body)

  unfoldable pub biz_msg_callback :
      MqttTunnel W → String → Option (ArkMqttMsg ArkSimpleAllBizInfoData) → Go W Unit
  unfolding fresh node_of
  biz_msg_callback t topic body = acked ack (
      fresh now tt
        (λ msg. call_if_set_both t.callbacks.on_all_biz_status_arrived (node_of t topic) (
          translate_biz_infos_to_container_statuses
            (translate_simple_biz_data_to_biz_infos msg.payload) msg.publish_timestamp))
        body)

  unfoldable pub all_biz_msg_callback :
      MqttTunnel W
      → String
      → Option (ArkMqttMsg (GenericArkResponseBase (List ArkBizInfo)))
      → Go W Unit
  unfolding fresh node_of
  all_biz_msg_callback t topic body = acked ack (
      fresh now tt
        (λ msg.
          call_if_set_both t.callbacks.on_all_biz_status_arrived (node_of t topic)
            (translate_biz_infos_to_container_statuses msg.payload.payload msg.publish_timestamp))
        body)

  -- onOneBizDataArrived is called without a test for nil.
  unfoldable pub operation_reported : MqttTunnel W → String → ℤ → BizOperationResponse → Go W Unit
  operation_reported t node_name time d w =
      let report : String → String → Outcome Unit × W = λ state outcome.
        call_both t.callbacks.on_single_biz_status_arrived node_name
          (operation_status d time state outcome) w in
      if d.command == command_install_biz
      then (if d.response.code == "SUCCESS"
          then report p.biz_state_activated " succeed"
          else report p.biz_state_broken " failed")
      else if d.command == command_uninstall_biz
      then (if d.response.code == "SUCCESS"
          then report p.biz_state_stopped " succeed"
          else report p.biz_state_broken " failed")
      else (returns tt, w)

  decoded_operation : MqttTunnel W → String → Option (ArkMqttMsg BizOperationResponse) → Go W Unit
  unfolding operation_reported node_of
  decoded_operation t topic none = pure tt
  decoded_operation t topic (some msg) =
      operation_reported t (node_of t topic) msg.publish_timestamp msg.payload

  unfoldable pub biz_operation_response_callback :
      MqttTunnel W → String → Option (ArkMqttMsg BizOperationResponse) → Go W Unit
  unfolding decoded_operation
  biz_operation_response_callback t topic body = acked ack (decoded_operation t topic body)

  abbrev is_activated_biz : String → Bool
  is_activated_biz biz_state = to_upper p.upper_table biz_state == "ACTIVATED"

  -- The status of one biz of a batch, by the first of its infos.
  unfoldable pub batch_status : ℤ → String → ArkBizInfo → BizStatusData
  unfolding to_upper
  batch_status time message info =
      let state = to_upper p.upper_table info.biz_state in
      record {
        key = get_biz_identity info.biz_name info.biz_version;
        name = info.biz_name;
        state = state;
        change_time = time;
        reason =
            info.biz_name
            <> ":"
            <> info.biz_version
            <> " "
            <> state
            <> (if is_activated_biz info.biz_state then " succeed" else " failed");
        message = message;
      }

  -- `bizResponse.BizInfos[0]` panics on an empty list.
  abbrev first_info : List ArkBizInfo → Outcome ArkBizInfo
  first_info [] = panics
  first_info (info ∷ rest) = returns info

  unfoldable pub convert_to_biz_status_data :
      ℤ → List (String × ArkResponseData) → Go W (List BizStatusData)
  unfolding batch_status
  convert_to_biz_status_data time [] = pure []
  convert_to_biz_status_data time ((biz_url, r) ∷ rest) = do
    info ← lift (first_info r.biz_infos)
    converted ← convert_to_biz_status_data time rest
    pure (batch_status time r.message info ∷ converted)

  unfoldable pub batch_reported : MqttTunnel W → String → List BizStatusData → Go W Unit
  unfolding node_of
  batch_reported t topic [] = pure tt
  batch_reported t topic (s ∷ rest) =
      call_both t.callbacks.on_all_biz_status_arrived (node_of t topic) (s ∷ rest)

  decoded_batch : MqttTunnel W → String → Option (ArkMqttMsg BatchInstallBizResponse) → Go W Unit
  unfolding convert_to_biz_status_data batch_reported
  decoded_batch t topic none w = (returns tt, w)
  decoded_batch t topic (some msg) w =
      if not (msg.payload.command == command_batch_install_biz)
      then (returns tt, w)
      else (convert_to_biz_status_data msg.publish_timestamp
              msg.payload.response.payload.biz_url_to_response
            >>= batch_reported t topic)
          w

  unfoldable pub batch_install_biz_response_callback :
      MqttTunnel W → String → Option (ArkMqttMsg BatchInstallBizResponse) → Go W Unit
  unfolding decoded_batch
  batch_install_biz_response_callback t topic body = acked ack (decoded_batch t topic body)

  -- What the goroutine of a baseline query publishes; it runs at some time after the query.
  unfoldable pub publish_baseline :
      Paho W → (List BizModel → String) → String → String → List Container → W → Option Error × W
  unfolding publish translate_core_v1_container_to_biz_model
  publish_baseline paho marshal env node_id containers =
      publish paho (format_baseline_response_topic env node_id) qos1
        (marshal (map (translate_core_v1_container_to_biz_model p) containers))

  -- Returns the goroutine that is started, if one is.
  unfoldable pub query_baseline_msg_callback :
      (QueryBaselineRequest → Go W (List Container))
      → Paho W
      → (List BizModel → String)
      → MqttTunnel W
      → String
      → Option (ArkMqttMsg BaseMetadata)
      → Go W (Option (W → Option Error × W))
  unfolding fresh
  query_baseline_msg_callback baseline paho marshal t topic body = acked ack (
      fresh now none
        (λ msg. do
          containers ← baseline (convert_base_metadata_to_baseline_query msg.payload)
          pure (
              some (
                publish_baseline paho marshal t.env (get_base_identity_from_topic topic)
                  containers)))
        body)
