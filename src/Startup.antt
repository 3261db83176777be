-- ===== src/Startup.antt =====
-- cmd/module-controller/main.go: startTunnels, which makes the tunnels that the environment enables
-- and starts them, and lookupProxyServiceIP.
pub mod Laws
pub mod Main
mod Tests
use module_controller.Prelude.{
  ℕ, zero, suc, ◌+◌, String, Bool, ◌||◌, Option, none, some, List, [], ◌∷◌, ◌++◌, ◌==◌, ◌<>◌,
  if◌then◌else◌,
}
use module_controller.Prelude.Int.{ℤ, pos}
use module_controller.Go.Effect.{
  Error, message, text_of, Result, ok, err, Outcome, returns, panics, Go, pure, panic, ◌>>=◌,
}
use module_controller.Go.Strconv.{atoi}
use module_controller.Model.{label_key_of_kubelet_proxy_service}

-- A tunnel that was made: its kind, and the port of an HTTP tunnel.
pub data TunnelKind : Type 0 where
  mqtt : TunnelKind
  http : ℤ → TunnelKind

abbrev port_or_7777 : Option ℤ → ℤ
port_or_7777 none = pos 7777
port_or_7777 (some port) = port

-- `get_env` is virtual-kubelet's utils.GetEnv, with its default.
unfoldable pub enabled_tunnels : (String → String → String) → List TunnelKind
unfolding atoi
enabled_tunnels get_env =
    (if get_env "ENABLE_MQTT_TUNNEL" "false" == "true" then mqtt ∷ [] else [])
    ++ (if get_env "ENABLE_HTTP_TUNNEL" "false" == "true"
        then http (port_or_7777 (atoi (get_env "HTTP_TUNNEL_LISTEN_PORT" "7777"))) ∷ []
        else [])

-- successTunnelCount and startFailedCount.
pub record Counts : Type 0 where
  pub succeeded : ℕ
  pub failed : ℕ

abbrev pub counted : Counts → Option Error → Counts
counted n none = record n { succeeded = n.succeeded + 1 }
counted n (some e) = record n { failed = n.failed + 1 }

abbrev pub first_of : {W : Type 0} → List TunnelKind → Go W TunnelKind
first_of [] = panic
first_of (k ∷ rest) = pure k

-- The tests on the counts, the failed ones first.
abbrev pub chosen : {W : Type 0} → List TunnelKind → ℕ → ℕ → Go W TunnelKind
chosen tunnels (suc failed) succeeded = panic
chosen tunnels zero zero = panic
chosen tunnels zero (suc n) = first_of tunnels

module _ {W : Type 0} (start : TunnelKind → Go W (Option Error)) where
  -- The loop that starts all tunnels, also after a failure. A Start that panics ends it.
  unfoldable pub start_all : Counts → List TunnelKind → Go W Counts
  start_all n [] = pure n
  start_all n (k ∷ rest) = do e ← start k; start_all (counted n e) rest

  unfoldable pub start_tunnels : (String → String → String) → Go W TunnelKind
  unfolding enabled_tunnels start_all
  start_tunnels get_env =
      start_all (record { succeeded = 0; failed = 0 }) (enabled_tunnels get_env) >>= λ n.
      chosen (enabled_tunnels get_env) n.failed n.succeeded

-- A service, by its name and Spec.ClusterIP.
pub record Service : Type 0 where
  pub name : String
  pub cluster_ip : String

abbrev ip_of : String → Service → Result String
ip_of namespace s =
    if s.cluster_ip == "" || s.cluster_ip == "None"
    then err (
        message (
          "kubelet proxy service " <> s.name <> " in namespace " <> namespace
          <> " has no valid ClusterIP"))
    else ok s.cluster_ip

abbrev the_ip : String → Result (List Service) → Result String
the_ip namespace (err e) =
    err (message ("failed to list services in namespace " <> namespace <> ": " <> text_of e))
the_ip namespace (ok []) =
    err (message ("no kubelet proxy service found in namespace " <> namespace))
the_ip namespace (ok (s ∷ [])) = ip_of namespace s
the_ip namespace (ok (s ∷ t ∷ rest)) = err (
    message (
      "multiple kubelet proxy services deteched in namespace " <> namespace
      <> ", expected only one"))

-- `list` lists the services of a namespace with a label selector.
unfoldable pub lookup_proxy_service_ip :
    (String → String → Result (List Service)) → String → Result String
lookup_proxy_service_ip list namespace =
    the_ip namespace (list namespace (label_key_of_kubelet_proxy_service <> "=true"))
