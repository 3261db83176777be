-- ===== src/MockBase/Http/Reports.antt =====
-- QueryAllBizStatusData of the HTTP tunnel on a mock base.
use mathlib.Core.List.{Mem, mem-cons, mem-cons_self}
use mathlib.Core.Logic.Or
use mathlib.Core.Option.{some-injective}
use module_controller.Prelude.{
  String, Bool, true, false, ◌≡◌, refl, ap, ◌∙◌, sym, none, some, List, [], ◌∷◌, map, if◌then◌else◌,
  ◌==◌, ◌<>◌, lookup, Bool-cases, inl, inr,
}
use module_controller.Prelude.Int.{ℤ}
use module_controller.Go.Effect.{returns}
use module_controller.Platform.{Platform}
use module_controller.Platform.Ark.{ArkBizInfo}
use module_controller.Platform.Vnode.{BizStatusData}
use module_controller.Model.{BaseStatus}
use module_controller.Utils.{
  translate_biz_info, translate_biz_infos_to_container_statuses, status_data,
}
use module_controller.ArkService.{Client, Body, query_all_biz}
use module_controller.HttpTunnel.Commands.Queries.{query_reports}
use module_controller.HttpTunnel.{HttpTunnel}
use module_controller.HttpTunnel.Nodes.{find_base}
use module_controller.HttpTunnel.Commands.{QueryState, query_all_biz_status_data}
use module_controller.MockBase.{BizInfos, IsKeyed}
use module_controller.MockBase.Http.{Json, MockHttpBase, all_biz_response}
use module_controller.MockBase.Http.Network.{IsNetwork, send_query-eq}

-- A biz of the base among the statuses.
record IsReported (k : String) (info : ArkBizInfo) (statuses : List BizStatusData) : Type 0 where
  status : BizStatusData
  listed : Mem status statuses
  for_biz : status.key ≡ info.biz_name <> ":" <> info.biz_version
  same_state : status.state ≡ info.biz_state

translated-IsReported :
    (t : ℤ) (infos : BizInfos) (k : String) (info : ArkBizInfo)
    → lookup k infos ≡ some info
    → IsReported k info (translate_biz_infos_to_container_statuses (map (λ e. e.1) infos) t)
unfolding lookup translate_biz_infos_to_container_statuses translate_biz_info status_data
translated-IsReported t [] k info e = cc
translated-IsReported t ((name, value) ∷ rest) k info e = elim (Bool-cases (name == k)) [
  | inl same ↦
      let v : value ≡ info =
        some-injective _ _ (ap (λ b. if b then some value else lookup k rest) (sym same) ∙ e) in
      record {
        status = translate_biz_info t value;
        listed = mem-cons_self;
        for_biz = ap (λ (i : ArkBizInfo). i.biz_name <> ":" <> i.biz_version) v;
        same_state = ap (λ (i : ArkBizInfo). i.biz_state) v;
      }
  | inr other ↦
      let r =
        translated-IsReported t rest k info
          (ap (λ b. if b then some value else lookup k rest) (sym other) ∙ e) in
      record {
        status = r.status;
        listed = mem-cons.1 (Or.inr r.listed);
        for_biz = r.for_biz;
        same_state = r.same_state;
      }
]

module _ {R : Type 0} (client : Client (MockHttpBase × R)) (j : Json) (encode : Body → String)
    (base_ip : String) (port : ℤ) (net : IsNetwork client j encode base_ip port) (p : Platform)
    (now : MockHttpBase × R → ℤ) where
  -- The query of a node whose base is a reachable mock base returns no error. If another query holds
  -- the lock, it only sets the flag. Else it reports one list of statuses, in which every biz that
  -- the base has stands under its key with its state; and it leaves the lock free, and starts itself
  -- again exactly if another query missed the lock meanwhile. The base must be known by its address and
  -- port and keep its bizs under their names and versions, the callback must have been registered,
  -- and the tunnel must read the list as the base wrote it.
  pub query-reports_bizs :
      (h : HttpTunnel (MockHttpBase × R)) (node_name : String) (known : BaseStatus)
      (f : String → List BizStatusData → MockHttpBase × R → MockHttpBase × R) (b : MockHttpBase)
      (w : R) (missed : Bool) (q : QueryState)
      → find_base h (p.extract_node_id_from_node_name node_name) ≡ some known
      → known.local_ip ≡ base_ip
      → known.port ≡ port
      → h.callbacks.on_all_biz_status_arrived ≡ some f
      → b.reachable ≡ true
      → client.unmarshal_all_biz (j.write_all_biz (all_biz_response b)) ≡ (all_biz_response b, none)
      → IsKeyed b.biz_infos
      → let node = p.format_node_name (p.extract_node_id_from_node_name node_name) h.env in
        (statuses : List BizStatusData) × (query_all_biz_status_data p now client h node_name missed
            q
            (b, w)
          ≡ (if q.locked then (returns none, record q { outdated = true }, (b, w)) else (
            returns none,
            record {
              locked = false;
              outdated = missed;
              restarted = if missed then node_name ∷ q.restarted else q.restarted;
            },
            f node statuses (b, w),
          )))
        × ((k : String) (info : ArkBizInfo)
            → lookup k b.biz_infos ≡ some info
            → (status : BizStatusData) × Mem status statuses
              × (status.key ≡ k)
              × (status.state ≡ info.biz_state))
  unfolding all_biz_response query_all_biz_status_data
  query-reports_bizs h node_name known f b w missed q e i o c up reads keyed =
      let sent : query_all_biz client known.local_ip known.port (b, w)
          ≡ ((all_biz_response b, none), (b, w)) =
        ap (λ ip. query_all_biz client ip known.port (b, w)) i
        ∙ ap (λ n. query_all_biz client base_ip n (b, w)) o
        ∙ send_query-eq client j encode base_ip port net b w reads up in
      (
        _,
        rw (
            query_reports p now client h node_name known (all_biz_response b) f (b, w) (b, w) e c
              sent refl),
        λ k info l.
            let r = translated-IsReported (now (b, w)) b.biz_infos k info l in
            (r.status, r.listed, r.for_biz ∙ sym (keyed.named k info l), r.same_state),
      )
