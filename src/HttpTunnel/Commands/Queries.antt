-- ===== src/HttpTunnel/Commands/Queries.antt =====
-- What the body of QueryAllBizStatusData reports when the base answers.
use module_controller.Prelude.{String, ◌≡◌, ap, ◌∙◌, none, some, List, eq_iff}
use module_controller.Prelude.Int.{ℤ}
use module_controller.Go.Effect.{returns, ◌>>◌, pure}
use module_controller.Platform.{Platform}
use module_controller.Platform.Ark.{ArkBizInfo, GenericArkResponseBase}
use module_controller.Platform.Vnode.{BizStatusData}
use module_controller.Model.{BaseStatus}
use module_controller.Utils.{translate_biz_infos_to_container_statuses}
use module_controller.Tunnel.{call_if_set_both}
use module_controller.ArkService.{Client, query_all_biz}
use module_controller.HttpTunnel.{HttpTunnel}
use module_controller.HttpTunnel.Nodes.{find_base}
use module_controller.HttpTunnel.Responses.{all_biz_msg_callback}
use module_controller.HttpTunnel.Commands.{query_locked, query_biz, after_all_biz}

module _ (p : Platform) {W : Type 0} (now : W → ℤ) (client : Client W) where
  after_all_biz-reports :
      (h : HttpTunnel W) (id : String) (d : GenericArkResponseBase (List ArkBizInfo))
      (f : String → List BizStatusData → W → W) (w : W)
      → h.callbacks.on_all_biz_status_arrived ≡ some f
      → d.code ≡ "SUCCESS"
      → after_all_biz p now client h id (d, none) w ≡ (
        returns none,
        f
            (p.format_node_name id h.env)
            (translate_biz_infos_to_container_statuses d.payload (now w))
            w,
      )
  unfolding after_all_biz all_biz_msg_callback
  after_all_biz-reports h id d f w c s =
      let name = p.format_node_name id h.env in
      let statuses = translate_biz_infos_to_container_statuses d.payload (now w) in
      rw ((eq_iff d.code "SUCCESS").1 s)
        (ap (λ g. (call_if_set_both g name statuses >> pure none) w) c)

  pub query_reports :
      (h : HttpTunnel W) (node_name : String) (base : BaseStatus)
      (d : GenericArkResponseBase (List ArkBizInfo)) (f : String → List BizStatusData → W → W)
      (w w' : W)
      → find_base h (p.extract_node_id_from_node_name node_name) ≡ some base
      → h.callbacks.on_all_biz_status_arrived ≡ some f
      → query_all_biz client base.local_ip base.port w ≡ ((d, none), w')
      → d.code ≡ "SUCCESS"
      → query_locked p now client h node_name w ≡ (
        returns none,
        f
            (p.format_node_name (p.extract_node_id_from_node_name node_name) h.env)
            (translate_biz_infos_to_container_statuses d.payload (now w'))
            w',
      )
  unfolding query_locked query_biz
  query_reports h node_name base d f w w' e c q s =
      let id = p.extract_node_id_from_node_name node_name in
      ap (λ b. query_biz p now client h id b w) e
      ∙ ap (λ r. after_all_biz p now client h id r.0 r.1) q
      ∙ after_all_biz-reports h id d f w' c s
