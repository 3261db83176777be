-- ===== src/MqttTunnel/Messages/Responses.antt =====
-- What the answers of a base to operations are reported as.
use module_controller.Prelude.{
  List, [], ◌∷◌, map, refl, String, ◌≡◌, ◌≢◌, some, eq_iff, eq-false_of_ne, inl, inr, ◌⊎◌,
}
use module_controller.Prelude.Int.{ℤ}
use module_controller.Go.Effect.{returns, panics}
use module_controller.Platform.{Platform}
use module_controller.Platform.Ark.{ArkBizInfo, ArkResponseData}
use module_controller.Platform.Vnode.{BizStatusData}
use module_controller.Model.{
  ArkMqttMsg, BizOperationResponse, command_install_biz, command_uninstall_biz,
  command_batch_install_biz, BatchInstallBizResponse,
}
use module_controller.Tunnel.{call_both}
use module_controller.MqttTunnel.{MqttTunnel}
use module_controller.MqttTunnel.Messages.{
  biz_operation_response_callback, operation_status, node_of, decoded_operation, operation_reported,
  batch_install_biz_response_callback, batch_status, convert_to_biz_status_data, decoded_batch,
  batch_reported,
}

module _ (p : Platform) where
  -- The state a biz is in after an operation answered, and how its reason ends.
  pub data Concludes (d : BizOperationResponse) : String → String → Type 0 where
    installed :
        d.command ≡ command_install_biz
        → d.response.code ≡ "SUCCESS"
        → Concludes d p.biz_state_activated " succeed"
    uninstalled :
        d.command ≡ command_uninstall_biz
        → d.response.code ≡ "SUCCESS"
        → Concludes d p.biz_state_stopped " succeed"
    failed :
        (d.command ≡ command_install_biz) ⊎ (d.command ≡ command_uninstall_biz)
        → d.response.code ≢ "SUCCESS"
        → Concludes d p.biz_state_broken " failed"

  module _ {W : Type 0} (now : W → ℤ) (ack : W → W) (t : MqttTunnel W) where
    operation_reported-eq :
        (node_name state outcome : String) (time : ℤ) (d : BizOperationResponse) (w : W)
        → Concludes d state outcome
        → operation_reported p now ack t node_name time d w
          ≡ call_both t.callbacks.on_single_biz_status_arrived node_name
              (operation_status d time state outcome)
              w
    unfolding operation_reported
    operation_reported-eq node_name state outcome time d w (installed c s) =
        rw ((eq_iff d.command command_install_biz).1 c, (eq_iff d.response.code "SUCCESS").1 s)
    operation_reported-eq node_name state outcome time d w (uninstalled c s) =
        rw (c, (eq_iff d.response.code "SUCCESS").1 s)
    operation_reported-eq node_name state outcome time d w (failed (inl c) n) =
        rw ((eq_iff d.command command_install_biz).1 c, eq-false_of_ne _ _ n)
    operation_reported-eq node_name state outcome time d w (failed (inr c) n) =
        rw (c, eq-false_of_ne _ _ n)

    -- The answer to an installation or an uninstallation is reported once, whatever its age, to the
    -- callback of single biz, for the node that the topic names: as activated or stopped if it
    -- succeeded, else as broken; then the message is acknowledged.
    pub operation_reports :
        (topic state outcome : String) (msg : ArkMqttMsg BizOperationResponse)
        (f : String → BizStatusData → W → W) (w : W)
        → t.callbacks.on_single_biz_status_arrived ≡ some f
        → Concludes msg.payload state outcome
        → biz_operation_response_callback p now ack t topic (some msg) w ≡ (
          returns tt,
          ack (
              f
                (node_of p now ack t topic)
                (operation_status msg.payload msg.publish_timestamp state outcome)
                w),
        )
    unfolding biz_operation_response_callback decoded_operation
    operation_reports topic state outcome msg f w e k = rw (
      operation_reported-eq (node_of p now ack t topic) state outcome msg.publish_timestamp
          msg.payload w k,
      e,
    )

-- The first biz info of each response of a batch, with the response's message.
pub data FirstInfos : List (String × ArkResponseData) → List (String × ArkBizInfo) → Type 0 where
  none_left : FirstInfos [] []
  first :
      {rest : List (String × ArkResponseData)} {infos : List (String × ArkBizInfo)}
      (biz_url : String) (r : ArkResponseData) (info : ArkBizInfo) (others : List ArkBizInfo)
      → r.biz_infos ≡ info ∷ others
      → FirstInfos rest infos
      → FirstInfos ((biz_url, r) ∷ rest) ((r.message, info) ∷ infos)

-- Some response of a batch has no biz info.
pub data LacksInfo : List (String × ArkResponseData) → Type 0 where
  here :
      {rest : List (String × ArkResponseData)} (biz_url : String) (r : ArkResponseData)
      → r.biz_infos ≡ []
      → LacksInfo ((biz_url, r) ∷ rest)
  later :
      {rest : List (String × ArkResponseData)} (biz_url : String) (r : ArkResponseData)
      → LacksInfo rest
      → LacksInfo ((biz_url, r) ∷ rest)

module _ (p : Platform) {W : Type 0} (now : W → ℤ) (ack : W → W) where
  -- The status of a biz of a batch, by the message and the info.
  abbrev pub status_of : ℤ → String × ArkBizInfo → BizStatusData
  status_of time (message, info) = batch_status p now ack time message info

  converted-map :
      (time : ℤ) (rs : List (String × ArkResponseData)) (infos : List (String × ArkBizInfo)) (w : W)
      → FirstInfos rs infos
      → convert_to_biz_status_data p now ack time rs w ≡ (returns (map (status_of time) infos), w)
  unfolding convert_to_biz_status_data
  converted-map time [] [] w none_left = refl
  converted-map time [] (i ∷ infos) w k = elim k [ ]
  converted-map time ((biz_url, r) ∷ rest) [] w k = elim k [ ]
  converted-map time ((biz_url, r) ∷ rest) ((m, info) ∷ infos) w
        (first biz_url' r' info' others e k) =
      rw e (rw (converted-map time rest infos w k))

  LacksInfo-panics :
      (time : ℤ) (rs : List (String × ArkResponseData)) (w : W)
      → LacksInfo rs
      → convert_to_biz_status_data p now ack time rs w ≡ (panics, w)
  unfolding convert_to_biz_status_data
  LacksInfo-panics time [] w k = elim k [ ]
  LacksInfo-panics time ((biz_url, r) ∷ rest) w (here biz_url' r' e) = rw e
  LacksInfo-panics time ((biz_url, r) ∷ rest) w (later biz_url' r' k) =
      after r.biz_infos refl (LacksInfo-panics time rest w k)
    where
      after :
          (infos : List ArkBizInfo)
          → r.biz_infos ≡ infos
          → convert_to_biz_status_data p now ack time rest w ≡ (panics, w)
          → convert_to_biz_status_data p now ack time ((biz_url, r) ∷ rest) w ≡ (panics, w)
      after [] e ih = rw e
      after (info ∷ others) e ih = rw e (rw ih)

  -- One call of the callback with the statuses, and none without a status.
  abbrev pub told : (String → List BizStatusData → W → W) → String → List BizStatusData → W → W
  told f node_name [] w = w
  told f node_name (s ∷ ss) w = f node_name (s ∷ ss) w

  batch_reported-told :
      (t : MqttTunnel W) (topic : String) (f : String → List BizStatusData → W → W) (w : W)
      → t.callbacks.on_all_biz_status_arrived ≡ some f
      → (statuses : List BizStatusData)
      → batch_reported p now ack t topic statuses w
        ≡ (returns tt, told f (node_of p now ack t topic) statuses w)
  unfolding batch_reported
  batch_reported-told t topic f w e [] = refl
  batch_reported-told t topic f w e (s ∷ ss) = rw e

  -- The answer to a batch installation, whatever its age, is reported in one call for the node that
  -- the topic names: the biz of each response by the first of its infos, in the order of the
  -- iteration; an answer without responses is not reported. Then the message is acknowledged. The
  -- callback must have been registered, the command must be batchInstallBiz, and every response must
  -- have an info.
  pub batch_reports :
      (t : MqttTunnel W) (topic : String) (msg : ArkMqttMsg BatchInstallBizResponse)
      (infos : List (String × ArkBizInfo)) (f : String → List BizStatusData → W → W) (w : W)
      → t.callbacks.on_all_biz_status_arrived ≡ some f
      → msg.payload.command ≡ command_batch_install_biz
      → FirstInfos msg.payload.response.payload.biz_url_to_response infos
      → batch_install_biz_response_callback p now ack t topic (some msg) w ≡ (
        returns tt,
        ack (told f (node_of p now ack t topic) (map (status_of msg.publish_timestamp) infos) w),
      )
  unfolding batch_install_biz_response_callback decoded_batch batch_reported
  batch_reports t topic msg infos f w e c k =
      rw ((eq_iff msg.payload.command command_batch_install_biz).1 c) (
        rw (
          converted-map msg.publish_timestamp msg.payload.response.payload.biz_url_to_response infos
              w k,
          batch_reported-told t topic f w e (map (status_of msg.publish_timestamp) infos),
        ))

  -- A response of a batch installation without a biz info makes the handler panic, with nothing
  -- reported of the other responses; the message is acknowledged all the same.
  pub batch_panics :
      (t : MqttTunnel W) (topic : String) (msg : ArkMqttMsg BatchInstallBizResponse) (w : W)
      → msg.payload.command ≡ command_batch_install_biz
      → LacksInfo msg.payload.response.payload.biz_url_to_response
      → batch_install_biz_response_callback p now ack t topic (some msg) w ≡ (panics, ack w)
  unfolding batch_install_biz_response_callback decoded_batch
  batch_panics t topic msg w c k = rw ((eq_iff msg.payload.command command_batch_install_biz).1 c) (
      rw (
        LacksInfo-panics msg.publish_timestamp msg.payload.response.payload.biz_url_to_response w
          k))
