-- ===== src/Startup/Main/Laws.antt =====
-- When main runs the manager.
use module_controller.Prelude.{String, Bool, true, ◌≡◌, Option, none}
use module_controller.Go.Effect.{Error, returns, Go}
use module_controller.Startup.{TunnelKind, start_tunnels}
use module_controller.Startup.Main.{
  VnodeControllerConfig, Process, going, ◌>>=◌, ◌>>◌, Calls, client_id, environment, config_with,
  or_die, or_exit, or_return, or_crash, service_ip, serve_proxy, run,
}
use module_controller.Startup.Main.Exactly.{Quiet, Exactly}

module _ {W : Type 0} (ran : W → Bool) where
  module _ (c : Calls W) where
    -- No call of the set-up runs the manager, and the last step does.
    pub record IsSetUp : Type 0 where
      pub get_config : Quiet ran c.get_config
      pub new_client_set : Quiet ran c.new_client_set
      pub new_manager : Quiet ran c.new_manager
      pub setup_deployments : (env : String) → Quiet ran (c.setup_deployments env)
      pub start_tunnel : (id env : String) (k : TunnelKind) → Quiet ran (c.start_tunnel id env k)
      pub new_vnode_controller :
          (config : VnodeControllerConfig) (k : TunnelKind)
          → Quiet ran (c.new_vnode_controller config k)
      pub setup_vnodes : Quiet ran c.setup_vnodes
      pub add_healthz_check : Quiet ran c.add_healthz_check
      pub add_readyz_check : Quiet ran c.add_readyz_check
      pub start_kubelet_proxy : (address : String) → Quiet ran (c.start_kubelet_proxy address)
      pub run_manager : (w : W) → ran (c.run_manager w).1 ≡ true

    abbrev pub ReadyzAdded : W → Type 0
    ReadyzAdded w =
        let r = c.add_readyz_check w in (r.0 ≡ none) × ((serve_proxy c r.1).0 ≡ going tt)

    abbrev pub ChecksAdded : W → Type 0
    ChecksAdded w = let r = c.add_healthz_check w in (r.0 ≡ none) × ReadyzAdded r.1

    abbrev pub VnodesSetUp : W → Type 0
    VnodesSetUp w = let r = c.setup_vnodes w in (r.0 ≡ none) × ChecksAdded r.1

    abbrev pub ControllerMade : String → TunnelKind → W → Type 0
    ControllerMade ip kind w =
        let r = c.new_vnode_controller (config_with c ip) kind w in (r.0 ≡ none) × VnodesSetUp r.1

    abbrev pub TunnelsStarted : String → W → Type 0
    TunnelsStarted ip w =
        let r = start_tunnels (c.start_tunnel (client_id c) (environment c)) c.get_env w in
        (kind : TunnelKind) × (r.0 ≡ returns kind) × ControllerMade ip kind r.1

    abbrev pub DeploymentsSetUp : String → W → Type 0
    DeploymentsSetUp ip w =
        let r = c.setup_deployments (environment c) w in (r.0 ≡ none) × TunnelsStarted ip r.1

    abbrev pub IpFound : W → Type 0
    IpFound w = (ip : String) × (service_ip c ≡ going ip) × DeploymentsSetUp ip w

    abbrev pub ClientsMade : W → Type 0
    ClientsMade w = let r = c.new_client_set w in (r.0 ≡ true) × IpFound r.1

    abbrev pub ManagerMade : W → Type 0
    ManagerMade w = let r = c.new_manager w in (r.0 ≡ none) × ClientsMade r.1

    -- Every step of the set-up succeeds, each in the world that the steps before it left.
    abbrev pub Succeeds : W → Type 0
    Succeeds w = let r = c.get_config w in (r.0 ≡ true) × ManagerMade r.1

    -- What main does from a step on.
    abbrev proxied : W → Process Unit × W
    proxied = serve_proxy c >> run c

    abbrev readyz : W → Process Unit × W
    readyz = (λ w. or_exit (c.add_readyz_check w)) >> proxied

    abbrev checks : W → Process Unit × W
    checks = (λ w. or_exit (c.add_healthz_check w)) >> readyz

    abbrev vnodes : W → Process Unit × W
    vnodes = (λ w. or_return (c.setup_vnodes w)) >> checks

    abbrev controller : String → TunnelKind → W → Process Unit × W
    controller ip kind =
        (λ w. or_return (c.new_vnode_controller (config_with c ip) kind w)) >> vnodes

    abbrev start : TunnelKind → Go W (Option Error)
    start = c.start_tunnel (client_id c) (environment c)

    abbrev tunnels : String → W → Process Unit × W
    tunnels ip = (λ w. or_crash (start_tunnels start c.get_env w)) >>= controller ip

    abbrev deployments : String → W → Process Unit × W
    deployments ip = (λ w. or_return (c.setup_deployments (environment c) w)) >> tunnels ip

    abbrev clients : W → Process Unit × W
    clients = (λ w. or_die (c.new_client_set w)) >> ((λ w. (service_ip c, w)) >>= deployments)

    abbrev manager : W → Process Unit × W
    manager = (λ w. or_exit (c.new_manager w)) >> clients
