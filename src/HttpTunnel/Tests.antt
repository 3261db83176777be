-- ===== src/HttpTunnel/Tests.antt =====
-- Runs of the HTTP tunnel and of its requests on concrete values.
use module_controller.Prelude.{
  Option, String, ◌≡◌, refl, true, none, some, List, [], ◌∷◌, ◌==◌, if◌then◌else◌, lookup, ◌≤◌,
}
use module_controller.Prelude.Int.{ℤ, pos}
use module_controller.Go.Effect.{returns, Error, message, ok}
use module_controller.Platform.Ark.{BizModel, ArkResponseData}
use module_controller.Platform.Vnode.{NodeInfo, BizStatusData}
use module_controller.Model.{ArkResponse}
use module_controller.Tunnel.{Callbacks}
use module_controller.Utils.{
  convert_base_status_to_node_info, get_biz_identity, get_biz_version_from_container,
}
use module_controller.ArkService.{
  Client, HttpResponse, install_biz, zero_biz_response, zero_all_biz_response, zero_health_response,
}
use mathlib.Core.Logic.Or
use module_controller.Samples.{platform, base, container}
use module_controller.HttpTunnel.{HttpTunnel}
use module_controller.HttpTunnel.Nodes.{find, find_base, register_node}
use module_controller.HttpTunnel.Discovery.{heartbeat, success}
use module_controller.HttpTunnel.Discovery.Laws.{heartbeat_accepted, register_after_heartbeat}
use module_controller.HttpTunnel.Commands.{start_biz, model_of}
use module_controller.HttpTunnel.Commands.Laws.{start_biz_reports}
use module_controller.HttpTunnel.QueryLock.{
  here, next, arrive, idle, count_holders, at_most_one_query, lock, clearing, Tunnel,
}

-- The world is the list of the states that were reported.
abbrev callbacks : Callbacks (List String)
callbacks = record {
  on_base_discovered = some (λ info w. info.metadata.name ∷ w);
  on_base_status_arrived = some (λ name status w. status.node_state ∷ w);
  on_all_biz_status_arrived = some (λ name statuses w. name ∷ w);
  on_single_biz_status_arrived = some (λ name status w. status.state ∷ w);
}

-- A started tunnel that knows one base.
abbrev tunnel : HttpTunnel (List String)
tunnel = record {
  env = "prod";
  port = pos 7777;
  ready = true;
  callbacks = callbacks;
  online_node = some [];
  node_id_to_base_status_map = some (("base1", base) ∷ []);
}

abbrev now : List String → ℤ
now w = pos 5000

abbrev succeeded : ArkResponse ArkResponseData
succeeded = record zero_biz_response { code = "SUCCESS" }

-- A client whose posts are answered with success, and one whose posts cannot be sent.
abbrev answering : Client (List String)
answering = record {
  post = λ url body w. ((none, some (record { status_code = 200; content = "{}" })), w);
  unmarshal_biz = λ content. (succeeded, none);
  unmarshal_all_biz = λ content. (zero_all_biz_response, none);
  unmarshal_health = λ content. (zero_health_response, none);
}

abbrev cut_off : Client (List String)
cut_off = record answering { post = λ url body w. ((some (message "timeout"), none), w) }

base1_known : find_base tunnel "base1" ≡ some base
unfolding find_base find lookup
base1_known = refl

abbrev info : NodeInfo
info = convert_base_status_to_node_info platform base "prod"

heartbeat_accepted_example :
    (h' : HttpTunnel (List String)) × (heartbeat platform "POST"
        (ok base)
        (record { tunnel = tunnel; world = [] })
      ≡ (returns success, record { tunnel = h'; world = info.metadata.name ∷ [] }))
    × (find_base h' "base1" ≡ some base)
heartbeat_accepted_example =
    heartbeat_accepted platform base tunnel (("base1", base) ∷ []) (λ i w. i.metadata.name ∷ w) []
      "base1" refl refl

register_after_heartbeat_example :
    (announced : NodeInfo) × (h' : HttpTunnel (List String)) × (heartbeat platform "POST"
        (ok base)
        (record { tunnel = tunnel; world = [] })
      ≡ (returns success, record { tunnel = h'; world = announced.metadata.name ∷ [] }))
    × (h'' : HttpTunnel (List String)) × (register_node platform announced h' ≡ returns h'')
    × (find_base h'' "base1" ≡ some base)
register_after_heartbeat_example =
    register_after_heartbeat platform base tunnel (("base1", base) ∷ [])
      (λ i w. i.metadata.name ∷ w) [] "base1" refl refl refl

start_biz_reports_example :
    let r = install_biz answering (model_of platform "pod1" container) "10.0.0.1" (pos 8080) [] in
    (status : BizStatusData) × (start_biz platform now answering tunnel "base1" "pod1" container []
      ≡ (returns r.0.1, status.state ∷ r.1))
    × (status.key ≡ get_biz_identity "biz1" (get_biz_version_from_container container))
    × (status.state ≡ (if r.0.0.code == "SUCCESS" then "ACTIVATED" else "BROKEN"))
start_biz_reports_example =
    start_biz_reports platform now answering tunnel "base1" "pod1" container base
      (λ name status w. status.state ∷ w) [] base1_known refl

abbrev one_holds : Tunnel
one_holds = record idle { locked = true; queries = clearing "base1" ∷ [] }

at_most_one_query_example : count_holders one_holds.queries ≤ 1
at_most_one_query_example =
    at_most_one_query one_holds
      (next (next here (arrive _ "base1")) (lock _ "base1" [] [] refl refl))

abbrev answer : HttpResponse
answer = record { status_code = 200; content = "{}" }

abbrev no_error : Option Error
no_error = none

abbrev count_bizs : List BizModel → String
count_bizs [] = "none"
count_bizs (b ∷ bs) = "some"
