-- ===== src/MockBase/Http/Network.antt =====
-- The HTTP tunnel on a mock base: the requests of ArkService.antt, sent over a network to the
-- handlers of mock_http_base.go, and StartBiz and StopBiz on top.
use module_controller.Prelude.{
  String, true, ◌≡◌, refl, ap, ◌∙◌, none, some, ◌==◌, if◌then◌else◌, lookup,
}
use module_controller.Prelude.Int.{ℤ}
use module_controller.Go.Effect.{returns, ok}
use module_controller.Platform.{Platform}
use module_controller.Platform.Kube.{Container}
use module_controller.Platform.Ark.{BizModel}
use module_controller.Platform.Vnode.{BizStatusData}
use module_controller.Model.{BaseStatus}
use module_controller.Utils.{translate_core_v1_container_to_biz_model}
use module_controller.ArkService.{Client, Body, biz, braces, url, checked}
use module_controller.ArkService.{
  install_biz as send_install, uninstall_biz as send_uninstall, query_all_biz as send_query,
}
use module_controller.HttpTunnel.{HttpTunnel}
use module_controller.HttpTunnel.Nodes.{find_base}
use module_controller.HttpTunnel.Commands.{model_of, start_biz, stop_biz}
use module_controller.HttpTunnel.Commands.Laws.{start_biz_reports, stop_biz_reports}
use module_controller.MockBase.{get_biz_identity}
use module_controller.MockBase.Http.{
  Json, MockHttpBase, Route, path, query_all_biz, install_biz, uninstall_biz, serve, answer,
  success_response, all_biz_response, process_install_biz, process_uninstall_biz,
}
use module_controller.MockBase.Http.Laws.{serve-up, answer-find, after_request}

module _ {R : Type 0} (client : Client (MockHttpBase × R)) (j : Json) (encode : Body → String) where
  -- Every request to the address reaches the base and its answer comes back, and the client reads
  -- the base's answers to operations.
  pub record IsNetwork (base_ip : String) (port : ℤ) : Type 0 where
    pub sent :
        (route : Route) (body : Body) (b : MockHttpBase) (w : R)
        → client.post (url base_ip port (path route)) body (b, w)
          ≡ let (response, b') = serve j route (ok (encode body)) b in
            ((none, some response), (b', w))
    pub reads_response :
        (b : MockHttpBase)
        → client.unmarshal_biz (j.write_response (success_response b)) ≡ (success_response b, none)

  module _ (base_ip : String) (port : ℤ) (net : IsNetwork base_ip port) where
    sent_up :
        (route : Route) (body : Body) (b : MockHttpBase) (w : R)
        → b.reachable ≡ true
        → client.post (url base_ip port (path route)) body (b, w)
          ≡ let (content, b') = answer j route (ok (encode body)) b in
            ((none, some (record { status_code = 200; content = content })), (b', w))
    sent_up route body b w up =
        net.sent route body b w
        ∙ ap (λ r. ((none, some r.0), (r.1, w))) (serve-up j route (ok (encode body)) b up)

    send_install-eq :
        (m : BizModel) (b : MockHttpBase) (w : R)
        → b.reachable ≡ true
        → send_install client m base_ip port (b, w)
          ≡ ((success_response b, none), ((answer j install_biz (ok (encode (biz m))) b).1, w))
    unfolding send_install checked answer process_install_biz
    send_install-eq m b w up = rw (sent_up install_biz (biz m) b w up) (
        ap (λ d. (d, ((answer j install_biz (ok (encode (biz m))) b).1, w))) (net.reads_response b))

    send_uninstall-eq :
        (m : BizModel) (b : MockHttpBase) (w : R)
        → b.reachable ≡ true
        → send_uninstall client m base_ip port (b, w)
          ≡ ((success_response b, none), ((answer j uninstall_biz (ok (encode (biz m))) b).1, w))
    unfolding send_uninstall checked answer process_uninstall_biz
    send_uninstall-eq m b w up = rw (sent_up uninstall_biz (biz m) b w up) (
        ap (λ d. (d, ((answer j uninstall_biz (ok (encode (biz m))) b).1, w)))
          (net.reads_response b))

    pub send_query-eq :
        (b : MockHttpBase) (w : R)
        → client.unmarshal_all_biz (j.write_all_biz (all_biz_response b))
          ≡ (all_biz_response b, none)
        → b.reachable ≡ true
        → send_query client base_ip port (b, w) ≡ ((all_biz_response b, none), (b, w))
    unfolding send_query checked answer
    send_query-eq b w reads up =
        rw (sent_up query_all_biz braces b w up) (ap (λ d. (d, (b, w))) reads)

    -- What the base has after the request of a biz.
    answered-find :
        (route : Route) (m : BizModel) (b : MockHttpBase) (k : String)
        → j.parse_biz_model (encode (biz m)) ≡ m
        → lookup k (answer j route (ok (encode (biz m))) b).1.biz_infos
          ≡ after_request route m (λ i. lookup i b.biz_infos) k
    answered-find route m b k parses =
        answer-find j route (encode (biz m)) b k
        ∙ ap (λ r. after_request route r (λ i. lookup i b.biz_infos) k) parses

    module _ (p : Platform) (now : MockHttpBase × R → ℤ) where
      -- StartBiz for a node whose base is a reachable mock base returns no error, reports the biz of
      -- the container as activated, and leaves the biz on the base: as it was if the base had one
      -- of this name and version, and new otherwise. Under every
      -- other key the base has what it had. The base must read the request as it was written.
      pub start_biz-installs :
          (h : HttpTunnel (MockHttpBase × R)) (node_name pod_key : String) (container : Container)
          (known : BaseStatus) (f : String → BizStatusData → MockHttpBase × R → MockHttpBase × R)
          (b : MockHttpBase) (w : R)
          → find_base h (p.extract_node_id_from_node_name node_name) ≡ some known
          → known.local_ip ≡ base_ip
          → known.port ≡ port
          → h.callbacks.on_single_biz_status_arrived ≡ some f
          → b.reachable ≡ true
          → j.parse_biz_model (encode (biz (model_of p pod_key container)))
            ≡ model_of p pod_key container
          → let m = model_of p pod_key container in
            (status : BizStatusData) × (b' : MockHttpBase) × (start_biz p now client h node_name
                pod_key container
                (b, w)
              ≡ (
                returns none,
                f
                    (p.format_node_name (p.extract_node_id_from_node_name node_name) h.env)
                    status
                    (b', w),
              ))
            × (status.key ≡ get_biz_identity m)
            × (status.state ≡ p.biz_state_activated)
            × ((k : String)
                → lookup k b'.biz_infos ≡ after_request install_biz m (λ i. lookup i b.biz_infos) k)
      unfolding get_biz_identity translate_core_v1_container_to_biz_model
      start_biz-installs h node_name pod_key container known f b w e i o c up parses =
          let m = model_of p pod_key container in
          let (status, run, key, state) =
            start_biz_reports p now client h node_name pod_key container known f (b, w) e c in
          let sent : send_install client m known.local_ip known.port (b, w) ≡ (
            (success_response b, none),
            ((answer j install_biz (ok (encode (biz m))) b).1, w),
          ) =
            ap (λ ip. send_install client m ip known.port (b, w)) i
            ∙ ap (λ n. send_install client m base_ip n (b, w)) o
            ∙ send_install-eq m b w up in
          (
            status,
            (answer j install_biz (ok (encode (biz m))) b).1,
            run
                ∙ ap
                    (λ r. (
                      returns r.0.1,
                      f (p.format_node_name (p.extract_node_id_from_node_name node_name) h.env)
                          status r.1,
                    ))
                    sent,
            key,
            state
                ∙ ap
                    (λ r.
                      if r.0.0.code == "SUCCESS" then p.biz_state_activated else p.biz_state_broken)
                    sent,
            λ k. answered-find install_biz m b k parses,
          )

      -- StopBiz for a node whose base is a reachable mock base returns no error, reports nothing,
      -- and removes from the base the biz with the name and version of the container, and no other.
      -- The base must read the request as it was written.
      pub stop_biz-removes :
          (h : HttpTunnel (MockHttpBase × R)) (node_name pod_key : String) (container : Container)
          (known : BaseStatus) (f : String → BizStatusData → MockHttpBase × R → MockHttpBase × R)
          (b : MockHttpBase) (w : R)
          → find_base h (p.extract_node_id_from_node_name node_name) ≡ some known
          → known.local_ip ≡ base_ip
          → known.port ≡ port
          → h.callbacks.on_single_biz_status_arrived ≡ some f
          → b.reachable ≡ true
          → j.parse_biz_model (encode (biz (model_of p pod_key container)))
            ≡ model_of p pod_key container
          → (b' : MockHttpBase) × (stop_biz p now client h node_name pod_key container (b, w)
              ≡ (returns none, (b', w)))
            × ((k : String)
                → lookup k b'.biz_infos
                  ≡ after_request uninstall_biz
                      (model_of p pod_key container)
                      (λ i. lookup i b.biz_infos)
                      k)
      stop_biz-removes h node_name pod_key container known f b w e i o c up parses =
          let m = model_of p pod_key container in
          let after = (answer j uninstall_biz (ok (encode (biz m))) b).1 in
          let run =
            stop_biz_reports p now client h node_name pod_key container known f (b, w) e c in
          let sent : send_uninstall client m known.local_ip known.port (b, w)
              ≡ ((success_response b, none), (after, w)) =
            ap (λ ip. send_uninstall client m ip known.port (b, w)) i
            ∙ ap (λ n. send_uninstall client m base_ip n (b, w)) o
            ∙ send_uninstall-eq m b w up in
          (after, run ∙ rw sent refl, λ k. answered-find uninstall_biz m b k parses)
