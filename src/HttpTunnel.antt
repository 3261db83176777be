-- ===== src/HttpTunnel.antt =====
-- module_tunnels/koupleless_http_tunnel/http_tunnel.go: the tunnel that talks to the bases by HTTP.
-- A method that writes a field is an action on the tunnel and the world `W` outside; one that only
-- reads them takes the tunnel as an argument. The lock around a single read or write of the map of
-- bases makes it atomic and has no other effect; the lock of QueryAllBizStatusData is in
-- QueryLock.antt.
pub mod Nodes
pub mod Discovery
pub mod Responses
pub mod Commands
pub mod QueryLock
pub mod Directory
mod Tests
mod RunTests
use module_controller.Prelude.{ℕ, String, Bool, true, false, Option, none, some, List, []}
use module_controller.Prelude.Int.{ℤ}
use module_controller.Model.{BaseStatus}
use module_controller.Tunnel.{Callbacks, no_callbacks}

pub record HttpTunnel (W : Type 0) : Type 0 where
  pub env : String
  pub port : ℤ
  pub ready : Bool
  pub callbacks : Callbacks W
  -- none is a nil map: Start makes both
  pub online_node : Option (List (String × Bool))
  pub node_id_to_base_status_map : Option (List (String × BaseStatus))

pub record Running (W : Type 0) : Type 0 where
  pub tunnel : HttpTunnel W
  pub world : W

unfoldable pub new_http_tunnel : {W : Type 0} → String → ℤ → HttpTunnel W
new_http_tunnel env port = record {
  env = env;
  port = port;
  ready = false;
  callbacks = no_callbacks;
  online_node = none;
  node_id_to_base_status_map = none;
}

unfoldable pub ready : {W : Type 0} → HttpTunnel W → Bool
ready h = h.ready

unfoldable pub key : String
key = "http_tunnel_provider"

unfoldable pub register_callback : {W : Type 0} → Callbacks W → HttpTunnel W → HttpTunnel W
register_callback callbacks h = record h { callbacks = callbacks }

-- Start, but for the goroutine that serves Discovery.antt and the client of ArkService.antt.
unfoldable pub start : {W : Type 0} → String → String → HttpTunnel W → HttpTunnel W
start client_id env h = record h {
  online_node = some [];
  node_id_to_base_status_map = some [];
  env = env;
  ready = true;
}
