-- ===== src/HttpTunnel/Commands/Laws.antt =====
-- What the commands to a base report and return.
use module_controller.Prelude.{
  String, Bool, true, false, ◌≡◌, ◌∙◌, refl, ap, Option, none, some, ◌==◌, if◌then◌else◌,
  Bool-cases, inl, inr,
}
use module_controller.Prelude.Int.{ℤ}
use module_controller.Go.Effect.{Error, Go, returns, pure, ◌>>◌}
use module_controller.Platform.{Platform}
use module_controller.Platform.Kube.{Container}
use module_controller.Platform.Ark.{BizModel, ArkResponseData}
use module_controller.Platform.Vnode.{BizStatusData}
use module_controller.Model.{
  BaseStatus, ArkResponse, BizOperationResponse, command_install_biz, command_uninstall_biz,
}
use module_controller.Utils.{
  translate_core_v1_container_to_biz_model, get_biz_version_from_container, get_biz_identity,
}
use module_controller.Tunnel.{call_both}
use module_controller.ArkService.{
  Client, HttpResponse, biz, url, install_biz, uninstall_biz, zero_biz_response,
}
use module_controller.HttpTunnel.{HttpTunnel}
use module_controller.HttpTunnel.Nodes.{find_base, network_info_not_found}
use module_controller.HttpTunnel.Responses.{
  biz_operation_response_callback, installed_status, broken_status,
}
use module_controller.HttpTunnel.Commands.{
  model_of, operation_response, fetch_health_data, query_locked, start_on, start_biz, stop_on,
  stop_biz, reported,
}

-- The report of an installation.
abbrev pub install_report : Platform → Bool → ℤ → BizOperationResponse → BizStatusData
install_report p done now d = if done then installed_status p now d else broken_status p now d

install_report-key :
    (p : Platform) (done : Bool) (now : ℤ) (d : BizOperationResponse)
    → (install_report p done now d).key ≡ get_biz_identity d.biz_name d.biz_version
install_report-key p true now d = refl
install_report-key p false now d = refl

install_report-state :
    (p : Platform) (done : Bool) (now : ℤ) (d : BizOperationResponse)
    → (install_report p done now d).state
      ≡ (if done then p.biz_state_activated else p.biz_state_broken)
install_report-state p true now d = refl
install_report-state p false now d = refl

module _ {W : Type 0} where
  -- The tail of a command: its report and then its error.
  abbrev tail_of :
      Option (String → BizStatusData → W → W)
      → String
      → BizStatusData
      → Option Error
      → Go W (Option Error)
  tail_of report name status e = call_both report name status >> pure e

module _ (p : Platform) {W : Type 0} (now : W → ℤ) (client : Client W) where
  -- For a node whose base is not known, each command, a query with the lock,
  -- returns the error "network info not found",
  -- asks nothing and reports nothing.
  pub unknown_node :
      (h : HttpTunnel W) (node_name pod_key : String) (container : Container) (w : W)
      → find_base h (p.extract_node_id_from_node_name node_name) ≡ none
      → (fetch_health_data p now client h node_name w ≡ (returns (some network_info_not_found), w))
        × (query_locked p now client h node_name w ≡ (returns (some network_info_not_found), w))
        × (start_biz p now client h node_name pod_key container w
            ≡ (returns (some network_info_not_found), w))
        × (stop_biz p now client h node_name pod_key container w
            ≡ (returns (some network_info_not_found), w))
  unfolding fetch_health_data query_locked start_biz stop_biz
  unknown_node h node_name pod_key container w e = (rw e, rw e, rw e, rw e)

  reported-install :
      (h : HttpTunnel W) (id : String) (m : BizModel) (r : ArkResponse ArkResponseData)
      (e : Option Error) (f : String → BizStatusData → W → W) (w : W)
      → h.callbacks.on_single_biz_status_arrived ≡ some f
      → reported p now client h id (operation_response command_install_biz m r) e w ≡ (
        returns e,
        f
            (p.format_node_name id h.env)
            (install_report p
              (r.code == "SUCCESS")
              (now w)
              (operation_response command_install_biz m r))
            w,
      )
  unfolding reported biz_operation_response_callback
  reported-install h id m r e f w c =
      let name = p.format_node_name id h.env in
      let d = operation_response command_install_biz m r in
      elim (Bool-cases (r.code == "SUCCESS")) [
        | inl success ↦ rw success (ap (λ g. tail_of g name (installed_status p (now w) d) e w) c)
        | inr failure ↦ rw failure (ap (λ g. tail_of g name (broken_status p (now w) d) e w) c)
      ]

  reported-uninstall :
      (h : HttpTunnel W) (id : String) (m : BizModel) (r : ArkResponse ArkResponseData)
      (e : Option Error) (f : String → BizStatusData → W → W) (w : W)
      → h.callbacks.on_single_biz_status_arrived ≡ some f
      → reported p now client h id (operation_response command_uninstall_biz m r) e w ≡ (
        returns e,
        (if r.code == "SUCCESS"
            then w
            else f
                (p.format_node_name id h.env)
                (broken_status p (now w) (operation_response command_uninstall_biz m r))
                w),
      )
  unfolding reported biz_operation_response_callback
  reported-uninstall h id m r e f w c =
      let name = p.format_node_name id h.env in
      let d = operation_response command_uninstall_biz m r in
      elim (Bool-cases (r.code == "SUCCESS")) [
        | inl success ↦ rw success
        | inr failure ↦ rw failure (ap (λ g. tail_of g name (broken_status p (now w) d) e w) c)
      ]

  -- StartBiz on a known base posts one install request, with the container's biz and the pod key, and
  -- then reports one status for the node: activated if the answer has the code "SUCCESS", and broken
  -- otherwise; it returns the error of the request. The callback must have been registered.
  pub start_biz_reports :
      (h : HttpTunnel W) (node_name pod_key : String) (container : Container) (base : BaseStatus)
      (f : String → BizStatusData → W → W) (w : W)
      → find_base h (p.extract_node_id_from_node_name node_name) ≡ some base
      → h.callbacks.on_single_biz_status_arrived ≡ some f
      → let r = install_biz client (model_of p pod_key container) base.local_ip base.port w in
        (status : BizStatusData) × (start_biz p now client h node_name pod_key container w ≡ (
          returns r.0.1,
          f (p.format_node_name (p.extract_node_id_from_node_name node_name) h.env) status r.1,
        ))
        × (status.key ≡ get_biz_identity container.name (get_biz_version_from_container container))
        × (status.state
            ≡ (if r.0.0.code == "SUCCESS" then p.biz_state_activated else p.biz_state_broken))
  unfolding start_biz translate_core_v1_container_to_biz_model
  start_biz_reports h node_name pod_key container base f w e c =
      let id = p.extract_node_id_from_node_name node_name in
      let m = model_of p pod_key container in
      let r = install_biz client m base.local_ip base.port w in
      let d = operation_response command_install_biz m r.0.0 in
      let done = r.0.0.code == "SUCCESS" in
      (
        install_report p done (now r.1) d,
        ap (λ b. start_on p now client h id m b w) e ∙ reported-install h id m r.0.0 r.0.1 f r.1 c,
        install_report-key p done (now r.1) d,
        install_report-state p done (now r.1) d,
      )

  start_on_unsent :
      (h : HttpTunnel W) (id : String) (m : BizModel) (base : BaseStatus) (w sent : W) (e : Error)
      (answer : Option HttpResponse)
      → client.post (url base.local_ip base.port "installBiz") (biz m) w ≡ ((some e, answer), sent)
      → start_on p now client h id m (some base) w
        ≡ reported p now client h id
            (operation_response command_install_biz m zero_biz_response)
            (some e)
            sent
  unfolding start_on install_biz
  start_on_unsent h id m base w sent e answer s = rw s

  -- StopBiz on a known base posts one uninstall request, with the container's biz and the pod key. A
  -- success is reported to nobody; any other answer is reported as a broken biz, with the code and
  -- message of the answer. It returns the error of the request. The callback must have been
  -- registered.
  pub stop_biz_reports :
      (h : HttpTunnel W) (node_name pod_key : String) (container : Container) (base : BaseStatus)
      (f : String → BizStatusData → W → W) (w : W)
      → find_base h (p.extract_node_id_from_node_name node_name) ≡ some base
      → h.callbacks.on_single_biz_status_arrived ≡ some f
      → let r = uninstall_biz client (model_of p pod_key container) base.local_ip base.port w in
        stop_biz p now client h node_name pod_key container w ≡ (
          returns r.0.1,
          (if r.0.0.code == "SUCCESS"
              then r.1
              else f
                  (p.format_node_name (p.extract_node_id_from_node_name node_name) h.env)
                  (broken_status p
                    (now r.1)
                    (operation_response command_uninstall_biz (model_of p pod_key container) r.0.0))
                  r.1),
        )
  unfolding stop_biz
  stop_biz_reports h node_name pod_key container base f w e c =
      let id = p.extract_node_id_from_node_name node_name in
      let m = model_of p pod_key container in
      let r = uninstall_biz client m base.local_ip base.port w in
      ap (λ b. stop_on p now client h id m b w) e ∙ reported-uninstall h id m r.0.0 r.0.1 f r.1 c

  -- If the install request cannot be sent, StartBiz returns the transport's error and reports the
  -- biz as broken, with an empty reason and an empty message: the error is in neither.
  pub start_biz_unsent :
      (h : HttpTunnel W) (node_name pod_key : String) (container : Container) (base : BaseStatus)
      (f : String → BizStatusData → W → W) (w sent : W) (e : Error) (answer : Option HttpResponse)
      → find_base h (p.extract_node_id_from_node_name node_name) ≡ some base
      → h.callbacks.on_single_biz_status_arrived ≡ some f
      → client.post
          (url base.local_ip base.port "installBiz")
          (biz (model_of p pod_key container))
          w
        ≡ ((some e, answer), sent)
      → (status : BizStatusData) × (start_biz p now client h node_name pod_key container w ≡ (
        returns (some e),
        f (p.format_node_name (p.extract_node_id_from_node_name node_name) h.env) status sent,
      ))
        × (status.state ≡ p.biz_state_broken)
        × (status.reason ≡ "")
        × (status.message ≡ "")
  unfolding start_biz
  start_biz_unsent h node_name pod_key container base f w sent e answer k c s =
      let id = p.extract_node_id_from_node_name node_name in
      let m = model_of p pod_key container in
      let d = operation_response command_install_biz m zero_biz_response in
      (
        broken_status p (now sent) d,
        ap (λ b. start_on p now client h id m b w) k
            ∙ start_on_unsent h id m base w sent e answer s
            ∙ reported-install h id m zero_biz_response (some e) f sent c,
        refl,
        refl,
        refl,
      )
