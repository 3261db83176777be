-- ===== src/MqttTunnel/Messages/Laws.antt =====
-- Which messages reach the virtual kubelet, and as what.
use module_controller.Prelude.{String, ◌≡◌, refl, true, Option, none, some, List}
use module_controller.Prelude.Int.{ℤ}
use module_controller.Go.Effect.{returns, Go}
use module_controller.Platform.{Platform}
use module_controller.Platform.Kube.{Container}
use module_controller.Platform.Ark.{BizModel, ArkBizInfo, HealthInfo, GenericArkResponseBase}
use module_controller.Model.{
  ArkMqttMsg, BaseStatus, BaseMetadata, QueryBaselineRequest, ArkSimpleAllBizInfoData,
}
use module_controller.Utils.{expired}
use module_controller.MqttClient.{Paho}
use module_controller.MqttTunnel.{MqttTunnel}
use module_controller.MqttTunnel.Messages.{
  max_live, fresh, acked, heart_beat_msg_callback, health_msg_callback, biz_msg_callback,
  all_biz_msg_callback, query_baseline_msg_callback,
}

-- A message that is not to be handled: it cannot be decoded, or it has expired at the clock.
pub data Dropped {T : Type 0} (now : ℤ) : Option (ArkMqttMsg T) → Type 0 where
  undecodable : Dropped now none
  too_old :
      (msg : ArkMqttMsg T)
      → expired now msg.publish_timestamp max_live ≡ true
      → Dropped now (some msg)

fresh-Dropped :
    {W T A : Type 0} (now : W → ℤ) (ack : W → W) (dropped : A) (handle : ArkMqttMsg T → Go W A)
    (body : Option (ArkMqttMsg T)) (w : W)
    → Dropped (now w) body
    → acked ack (fresh now dropped handle body) w ≡ (returns dropped, ack w)
unfolding fresh
fresh-Dropped now ack dropped handle none w undecodable = refl
fresh-Dropped now ack dropped handle (some msg) w (too_old msg' e) = rw e

module _ (p : Platform) {W : Type 0} (now : W → ℤ) (ack : W → W) (t : MqttTunnel W) where
  -- A heartbeat, a health report, a list of biz of either form or a baseline query that cannot be
  -- decoded or has expired is acknowledged and changes nothing else: no callback is called and no
  -- baseline is looked up.
  pub stale_messages :
      (baseline : QueryBaselineRequest → Go W (List Container)) (paho : Paho W)
      (marshal : List BizModel → String) (topic : String) (w : W)
      → ((body : Option (ArkMqttMsg BaseStatus))
          → Dropped (now w) body
          → heart_beat_msg_callback p now ack t body w ≡ (returns tt, ack w))
        × ((body : Option (ArkMqttMsg (GenericArkResponseBase HealthInfo)))
            → Dropped (now w) body
            → health_msg_callback p now ack t topic body w ≡ (returns tt, ack w))
        × ((body : Option (ArkMqttMsg ArkSimpleAllBizInfoData))
            → Dropped (now w) body
            → biz_msg_callback p now ack t topic body w ≡ (returns tt, ack w))
        × ((body : Option (ArkMqttMsg (GenericArkResponseBase (List ArkBizInfo))))
            → Dropped (now w) body
            → all_biz_msg_callback p now ack t topic body w ≡ (returns tt, ack w))
        × ((body : Option (ArkMqttMsg BaseMetadata))
            → Dropped (now w) body
            → query_baseline_msg_callback p now ack baseline paho marshal t topic body w
              ≡ (returns none, ack w))
  unfolding heart_beat_msg_callback health_msg_callback biz_msg_callback all_biz_msg_callback
      query_baseline_msg_callback
  stale_messages baseline paho marshal topic w = (
    (λ body d. fresh-Dropped now ack tt _ body w d),
    (λ body d. fresh-Dropped now ack tt _ body w d),
    (λ body d. fresh-Dropped now ack tt _ body w d),
    (λ body d. fresh-Dropped now ack tt _ body w d),
    (λ body d. fresh-Dropped now ack none _ body w d),
  )
