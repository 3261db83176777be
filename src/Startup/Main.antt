-- ===== src/Startup/Main.antt =====
-- main of cmd/module-controller/main.go: the configuration from the environment and the steps of the
-- set-up, each of which may end the process. The loggers and the tracker are left out, and of signals all but
-- the exit at a second one.
pub mod Exactly
pub mod Laws
use module_controller.Prelude.{
  ℕ, String, Bool, true, false, Option, none, some, List, [], ◌∷◌, ◌==◌, ◌<>◌, if◌then◌else◌,
}
use module_controller.Prelude.Int.{ℤ, pos}
use module_controller.Go.Effect.{Error, Result, ok, err, Outcome, returns, panics, Go}
use module_controller.Go.Strconv.{atoi}
use module_controller.Model.{
  env_key_of_client_id, env_key_of_namespace, env_key_of_cluster_mode_enabled,
  env_key_of_workload_max_level, env_key_of_vnode_worker_num, env_key_of_kubelet_proxy_enabled,
  env_key_of_kubelet_proxy_port, component_module,
}
use module_controller.Startup.{TunnelKind, Service, start_tunnels, lookup_proxy_service_ip}

-- virtual-kubelet's BuildVNodeControllerConfig, with the fields that main sets.
pub record VnodeControllerConfig : Type 0 where
  pub client_id : String
  pub env : String
  pub vpod_type : String
  pub is_cluster : Bool
  pub workload_max_level : ℤ
  pub vnode_worker_num : ℤ
  pub pseudo_node_ip : String

-- How main goes on or has ended: by a return, by os.Exit or a fatal log line, or by a panic.
pub data Process (A : Type 0) : Type 0 where
  going : A → Process A
  finished : Process A
  exited : ℕ → Process A
  crashed : Process A

module _ {W A B : Type 0} where
  abbrev pub next : Process A → (A → W → Process B × W) → W → Process B × W
  next (going a) f w = f a w
  next finished f w = (finished, w)
  next (exited code) f w = (exited code, w)
  next crashed f w = (crashed, w)

  infixl 10 ◌>>=◌ ◌>>◌
  abbrev pub ◌>>=◌ : (W → Process A × W) → (A → W → Process B × W) → W → Process B × W
  m >>= f = λ w. next (m w).0 f (m w).1

  abbrev pub ◌>>◌ : (W → Process A × W) → (W → Process B × W) → W → Process B × W
  m >> n = m >>= λ _. n

-- What main calls, on the state `W` of everything outside.
pub record Calls (W : Type 0) : Type 0 where
  -- virtual-kubelet's utils.GetEnv with its default, and os.Getenv
  pub get_env : String → String → String
  pub getenv : String → String
  pub new_uuid : String
  -- whether GetConfigOrDie, and NewForConfigOrDie, come back
  pub get_config : W → Bool × W
  pub new_client_set : W → Bool × W
  pub new_manager : W → Option Error × W
  pub list_services : String → String → Result (List Service)
  -- SetupWithManager of the module deployment controller for this environment
  pub setup_deployments : String → W → Option Error × W
  pub start_tunnel : String → String → TunnelKind → Go W (Option Error)
  pub new_vnode_controller : VnodeControllerConfig → TunnelKind → W → Option Error × W
  pub setup_vnodes : W → Option Error × W
  pub add_healthz_check : W → Option Error × W
  pub add_readyz_check : W → Option Error × W
  -- StartKubeletProxy on this address
  pub start_kubelet_proxy : String → W → Option Error × W
  -- Start of the manager until the context of SetupSignalHandler ends, its error logged, and whether
  -- it comes back; it does not if a second signal makes the handler exit
  pub run_manager : W → Bool × W

abbrev number_or : ℤ → Option ℤ → ℤ
number_or default none = default
number_or default (some n) = n

abbrev pub if_got : Bool → Process Unit
if_got true = going tt
if_got false = exited 1

abbrev pub unless_fatal : Option Error → Process Unit
unless_fatal none = going tt
unless_fatal (some e) = exited 1

abbrev pub unless_failed : Option Error → Process Unit
unless_failed none = going tt
unless_failed (some e) = finished

abbrev pub unless_panics : Outcome TunnelKind → Process TunnelKind
unless_panics (returns kind) = going kind
unless_panics panics = crashed

abbrev pub ip_or_exit : Result String → Process String
ip_or_exit (ok ip) = going ip
ip_or_exit (err e) = exited 1

module _ {W : Type 0} where
  -- A call that ends the process itself, and calls after whose error main exits or returns.
  abbrev pub or_die : Bool × W → Process Unit × W
  or_die r = (if_got r.0, r.1)

  abbrev pub or_exit : Option Error × W → Process Unit × W
  or_exit r = (unless_fatal r.0, r.1)

  abbrev pub or_return : Option Error × W → Process Unit × W
  or_return r = (unless_failed r.0, r.1)

  abbrev pub or_crash : Outcome TunnelKind × W → Process TunnelKind × W
  or_crash r = (unless_panics r.0, r.1)

  -- The process ends by main's return, or by the exit of the signal handler.
  abbrev pub or_exited : Bool × W → Process Unit × W
  or_exited (true, w) = (finished, w)
  or_exited (false, w) = (exited 1, w)

module _ {W : Type 0} (c : Calls W) where
  unfoldable pub client_id : String
  client_id = c.get_env env_key_of_client_id c.new_uuid

  unfoldable pub environment : String
  environment = c.get_env "ENV" "dev"

  unfoldable pub config_with : String → VnodeControllerConfig
  unfolding atoi client_id environment
  config_with service_ip = record {
    client_id = client_id;
    env = environment;
    vpod_type = component_module;
    is_cluster = c.get_env env_key_of_cluster_mode_enabled "" == "true";
    workload_max_level = number_or (pos 3) (atoi (c.get_env env_key_of_workload_max_level "3"));
    vnode_worker_num = number_or (pos 8) (atoi (c.get_env env_key_of_vnode_worker_num "8"));
    pseudo_node_ip = service_ip;
  }

  unfoldable pub proxy_enabled : Bool
  proxy_enabled = c.getenv env_key_of_kubelet_proxy_enabled == "true"

  -- moduleControllerServiceIP, empty without the proxy.
  unfoldable pub service_ip : Process String
  unfolding proxy_enabled lookup_proxy_service_ip
  service_ip =
      if proxy_enabled
      then ip_or_exit
          (lookup_proxy_service_ip c.list_services (c.get_env env_key_of_namespace "default"))
      else going ""

  unfoldable pub serve_proxy : W → Process Unit × W
  unfolding proxy_enabled
  serve_proxy w =
      if proxy_enabled
      then or_exit
          (c.start_kubelet_proxy (":" <> c.get_env env_key_of_kubelet_proxy_port "10250") w)
      else (going tt, w)

  unfoldable pub run : W → Process Unit × W
  run w = or_exited (c.run_manager w)

  unfoldable pub main : W → Process Unit × W
  unfolding service_ip serve_proxy run config_with start_tunnels
  main = do
    λ w. or_die (c.get_config w)
    λ w. or_exit (c.new_manager w)
    λ w. or_die (c.new_client_set w)
    ip ← λ w. (service_ip, w)
    λ w. or_return (c.setup_deployments environment w)
    kind ← λ w. or_crash (start_tunnels (c.start_tunnel client_id environment) c.get_env w)
    λ w. or_return (c.new_vnode_controller (config_with ip) kind w)
    λ w. or_return (c.setup_vnodes w)
    λ w. or_exit (c.add_healthz_check w)
    λ w. or_exit (c.add_readyz_check w)
    serve_proxy
    run
