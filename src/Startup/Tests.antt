-- ===== src/Startup/Tests.antt =====
-- A start with the MQTT tunnel alone.
use module_controller.Prelude.{
  Bool, true, false, String, ◌≡◌, refl, Option, none, List, [], ◌∷◌, ◌==◌, if◌then◌else◌,
}
use module_controller.Prelude.Int.{pos}
use module_controller.Go.Effect.{Error, Go, returns, ok}
use module_controller.Startup.{
  TunnelKind, mqtt, http, enabled_tunnels, start_all, start_tunnels, Service,
  lookup_proxy_service_ip,
}
use module_controller.Startup.Laws.{Tried, no_more, started}
use module_controller.Startup.Main.{Calls, service_ip, serve_proxy, proxy_enabled}
use module_controller.Startup.Main.Laws.{Succeeds}

abbrev environment : String → String → String
environment name other = if name == "ENABLE_MQTT_TUNNEL" then "true" else other

abbrev start : TunnelKind → Go (List String) (Option Error)
start k w = (returns none, "started" ∷ w)

mqtt_starts : Tried start (enabled_tunnels environment) 0 [] ("started" ∷ [])
unfolding enabled_tunnels
mqtt_starts = started mqtt [] ("started" ∷ []) refl (no_more ("started" ∷ []))

abbrev both : String → String → String
both name other = if name == "HTTP_TUNNEL_LISTEN_PORT" then other else "true"

both_enabled : enabled_tunnels both ≡ mqtt ∷ http (pos 7777) ∷ []
unfolding enabled_tunnels
both_enabled = refl

abbrev service : Service
service = record { name = "proxy"; cluster_ip = "10.1.0.1" }

one_service :
    lookup_proxy_service_ip (λ namespace labels. ok (service ∷ [])) "default" ≡ ok "10.1.0.1"
unfolding lookup_proxy_service_ip
one_service = refl

-- Everything succeeds; the world says whether the manager was run.
abbrev calls : Calls Bool
calls = record {
  get_env = λ name default. if name == "ENABLE_MQTT_TUNNEL" then "true" else default;
  getenv = λ name. "";
  new_uuid = "id";
  get_config = λ w. (true, w);
  new_client_set = λ w. (true, w);
  new_manager = λ w. (none, w);
  list_services = λ namespace selector. ok [];
  setup_deployments = λ env w. (none, w);
  start_tunnel = λ id env kind w. (returns none, w);
  new_vnode_controller = λ config kind w. (none, w);
  setup_vnodes = λ w. (none, w);
  add_healthz_check = λ w. (none, w);
  add_readyz_check = λ w. (none, w);
  start_kubelet_proxy = λ address w. (none, w);
  run_manager = λ w. (true, true);
}

all_succeed : Succeeds (λ w. w) calls false
unfolding service_ip serve_proxy proxy_enabled start_tunnels start_all enabled_tunnels
all_succeed =
    (refl, (refl, (refl, ("", refl, (refl, (mqtt, refl, (refl, (refl, (refl, (refl, refl))))))))))
