-- ===== src/MockBase/Tests.antt =====
-- Runs of the mock bases and of the HTTP tunnel on one of them.
use mathlib.Core.List.{Mem}
use mathlib.Core.Option.{none-ne-some}
use module_controller.Prelude.{
  String, true, false, ◌≡◌, refl, Option, none, some, List, [], ◌∷◌, insert, ◌==◌, if◌then◌else◌,
  lookup,
}
use module_controller.Prelude.Int.{ℤ, pos}
use module_controller.Go.Effect.{Error, returns, ok}
use module_controller.Platform.Ark.{BizModel, ArkBizInfo}
use module_controller.Platform.Vnode.{BizStatusData}
use module_controller.Model.{BaseStatus}
use module_controller.ArkService.{
  Client, Body, biz, braces, HttpResponse, url, zero_health_response,
}
use module_controller.Go.Strconv.{itoa}
use module_controller.Samples.{platform, base, container}
use module_controller.HttpTunnel.{HttpTunnel}
use module_controller.HttpTunnel.{Running as TunnelRunning}
use module_controller.HttpTunnel.Nodes.{find_base, find}
use module_controller.HttpTunnel.Discovery.{heartbeat}
use module_controller.HttpTunnel.Commands.{
  QueryState, model_of, start_biz, stop_biz, query_all_biz_status_data,
}
use module_controller.MockBase.{get_biz_identity, IsKeyed, insert-IsKeyed}
use module_controller.MockBase.Http.{
  Json, MockHttpBase, Route, path, health, query_all_biz, install_biz, uninstall_biz, serve,
  success_response, all_biz_response, new_biz_info, Running, heart_beat, start, leave,
}
use module_controller.MockBase.Http.Laws.{after_request}
use module_controller.MockBase.Http.Network.{IsNetwork, start_biz-installs, stop_biz-removes}
use module_controller.MockBase.Http.Reports.{query-reports_bizs}
use module_controller.MockBase.Http.Discovered.{start-leave}

-- What was reported, as names.
abbrev Log : Type 0
Log = List String

-- A biz with the name and the version of the container.
abbrev installed : BizModel
installed = record {
  biz_name = "biz1";
  biz_version = "1.0";
  biz_url = "file:///biz1.jar";
  biz_model_version = "pod1";
}

-- A base at 10.0.0.1:8080 with the biz of the container.
abbrev mock : MockHttpBase
mock = record {
  env = "test";
  curr_state = "ACTIVATED";
  metadata = record { identity = "base1"; version = "1.0"; cluster_name = "c"; name = "" };
  port = pos 8080;
  biz_infos = ("biz1:1.0", new_biz_info installed) ∷ [];
  baseline = [];
  exited = false;
  reachable = true;
}

-- The text of a response is the identity of the base, and that of a list has no entries.
abbrev json : Json
json = record {
  parse_biz_model = λ text. model_of platform "pod1" container;
  write_response = λ d. d.base_identity;
  write_all_biz = λ d. d.code;
  write_health = λ d. d.code;
  write_status = λ d. d.state;
}

abbrev encode : Body → String
encode braces = "{}"
encode (biz m) = m.biz_name

abbrev delivered :
    HttpResponse × MockHttpBase → Log → (Option Error × Option HttpResponse) × (MockHttpBase × Log)
delivered (response, b) w = ((none, some response), (b, w))

abbrev route_of : String → Route
route_of address =
    if address == "http://10.0.0.1:8080/installBiz"
    then install_biz
    else if address == "http://10.0.0.1:8080/uninstallBiz"
    then uninstall_biz
    else if address == "http://10.0.0.1:8080/health"
    then health
    else query_all_biz

abbrev client : Client (MockHttpBase × Log)
client = record {
  post = λ address body w. delivered (serve json (route_of address) (ok (encode body)) w.0) w.1;
  unmarshal_biz = λ text. (record (success_response mock) { base_identity = text }, none);
  unmarshal_all_biz = λ text. (all_biz_response mock, none);
  unmarshal_health = λ text. (zero_health_response, none);
}

sent :
    (route : Route) (body : Body) (b : MockHttpBase) (w : Log)
    → client.post (url "10.0.0.1" (pos 8080) (path route)) body (b, w)
      ≡ delivered (serve json route (ok (encode body)) b) w
unfolding itoa
sent health body b w = refl
sent query_all_biz body b w = refl
sent install_biz body b w = refl
sent uninstall_biz body b w = refl

network : IsNetwork client json encode "10.0.0.1" (pos 8080)
network = record { sent = sent; reads_response = λ b. refl }

abbrev known : BaseStatus
known = record base { port = pos 8080 }

-- A tunnel that knows the base and logs what it is told.
abbrev tunnel : HttpTunnel (MockHttpBase × Log)
tunnel = record {
  env = "test";
  port = pos 7777;
  ready = true;
  callbacks = record {
    on_base_discovered = none;
    on_base_status_arrived = none;
    on_all_biz_status_arrived = some (λ name statuses w. (w.0, name ∷ w.1));
    on_single_biz_status_arrived = some (λ name status w. (w.0, status.state ∷ w.1));
  };
  online_node = some [];
  node_id_to_base_status_map = some (("base1", known) ∷ []);
}

base1_known : find_base tunnel "base1" ≡ some known
unfolding find_base find lookup
base1_known = refl

abbrev now : MockHttpBase × Log → ℤ
now w = pos 5000

start_biz-installs_example :
    let m = model_of platform "pod1" container in
    (status : BizStatusData) × (b' : MockHttpBase) × (start_biz platform now client tunnel "base1"
        "pod1" container
        (mock, [])
      ≡ (returns none, (b', status.state ∷ [])))
    × (status.key ≡ get_biz_identity m)
    × (status.state ≡ "ACTIVATED")
    × ((k : String)
        → lookup k b'.biz_infos ≡ after_request install_biz m (λ i. lookup i mock.biz_infos) k)
start_biz-installs_example =
    start_biz-installs client json encode "10.0.0.1" (pos 8080) network platform now tunnel "base1"
      "pod1" container known (λ name status w. (w.0, status.state ∷ w.1)) mock [] base1_known refl
      refl refl refl refl

stop_biz-removes_example :
    (b' : MockHttpBase) × (stop_biz platform now client tunnel "base1" "pod1" container (mock, [])
      ≡ (returns none, (b', [])))
    × ((k : String)
        → lookup k b'.biz_infos
          ≡ after_request uninstall_biz
              (model_of platform "pod1" container)
              (λ i. lookup i mock.biz_infos)
              k)
stop_biz-removes_example =
    stop_biz-removes client json encode "10.0.0.1" (pos 8080) network platform now tunnel "base1"
      "pod1" container known (λ name status w. (w.0, status.state ∷ w.1)) mock [] base1_known refl
      refl refl refl refl

no_bizs-IsKeyed : IsKeyed []
unfolding lookup
no_bizs-IsKeyed = record { named = λ k info e. absurd (none-ne-some info e) }

mock-IsKeyed : IsKeyed mock.biz_infos
unfolding insert
mock-IsKeyed = insert-IsKeyed [] "biz1:1.0" (new_biz_info installed) no_bizs-IsKeyed refl

abbrev free : QueryState
free = record { locked = false; outdated = true; restarted = [] }

query-reports_bizs_example :
    (statuses : List BizStatusData) × (query_all_biz_status_data platform now client tunnel "base1"
        true free
        (mock, [])
      ≡ (
        returns none,
        record { locked = false; outdated = true; restarted = "base1" ∷ [] },
        (mock, "base1" ∷ []),
      ))
    × ((k : String) (info : ArkBizInfo)
        → lookup k mock.biz_infos ≡ some info
        → (status : BizStatusData) × Mem status statuses
          × (status.key ≡ k)
          × (status.state ≡ info.biz_state))
query-reports_bizs_example =
    query-reports_bizs client json encode "10.0.0.1" (pos 8080) network platform now tunnel "base1"
      known (λ name statuses w. (w.0, name ∷ w.1)) mock [] true free base1_known refl refl refl refl
      refl mock-IsKeyed

-- A started tunnel that knows no base.
abbrev discovering : TunnelRunning Log
discovering = record {
  tunnel = record {
    env = "test";
    port = pos 7777;
    ready = true;
    callbacks = record {
      on_base_discovered = some (λ info w. info.metadata.name ∷ w);
      on_base_status_arrived = none;
      on_all_biz_status_arrived = none;
      on_single_biz_status_arrived = none;
    };
    online_node = some [];
    node_id_to_base_status_map = some [];
  };
  world = [];
}

abbrev post : String → String → TunnelRunning Log → Option Error × TunnelRunning Log
post address text t =
    (none, (heartbeat platform "POST" (ok (record (heart_beat mock) { state = text })) t).1)

start-leave_example :
    let r : Running (TunnelRunning Log) = record { base = mock; world = discovering } in
    let (e, started) = start json post r in
    let left = leave json post started in
    (e ≡ none)
    × (find_base started.world.tunnel "base1"
        ≡ some (heart_beat (record mock { curr_state = "ACTIVATED" })))
    × (find_base left.world.tunnel "base1"
        ≡ some (heart_beat (record mock { curr_state = "DEACTIVATED" })))
start-leave_example =
    start-leave platform json post (record { base = mock; world = discovering })
      (record { received = λ state t. refl })
      (record { entries = []; made = refl; callback = _; set = refl })
