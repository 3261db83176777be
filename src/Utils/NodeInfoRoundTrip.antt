-- ===== src/Utils/NodeInfoRoundTrip.antt =====
-- A base that is announced by a heartbeat and later registered as a node: what the tunnel knows of
-- it then.
use module_controller.Prelude.{
  zero, suc, none, [], index, insert, String, ◌≡◌, refl, arith, not, if◌then◌else◌,
}
use module_controller.Prelude.Int.{ℤ, pos, negsuc, eqb_ℤ, IsInt64}
use module_controller.Go.Strings.{equal_fold}
use module_controller.Go.Strconv.{itoa, atoi}
use module_controller.Go.Strconv.RoundTrip.{atoi-itoa}
use module_controller.Platform.{Platform}
use module_controller.Platform.Kube.{Labels}
use module_controller.Model.{BaseStatus, label_key_of_tunnel_port}
use module_controller.Utils.{
  port_or_default, convert_base_status_to_node_info, convert_base_status_from_node_info,
}

-- The label of a port, and what is read from it again.
abbrev port_labels : ℤ → Labels
port_labels port =
    if not (eqb_ℤ port (pos 0)) then insert label_key_of_tunnel_port (itoa port) [] else []

atoi-empty : atoi "" ≡ none
unfolding atoi
atoi-empty = refl

port_kept :
    (port : ℤ)
    → IsInt64 port
    → port_or_default (atoi (index label_key_of_tunnel_port (port_labels port)))
      ≡ (if eqb_ℤ port (pos 0) then pos 1238 else port)
unfolding index insert
port_kept (pos zero) h = rw atoi-empty
port_kept (pos (suc n)) h = ground (arith, atoi-itoa (pos (suc n)) h)
port_kept (negsuc n) h = ground (arith, atoi-itoa (negsuc n) h)

module _ (p : Platform) where
  -- What the node info of a base keeps of the base's status: all but the base's name, the port if it
  -- is not 0, and of the state whether it was "ACTIVATED" in any case.
  abbrev pub remembered : BaseStatus → BaseStatus
  remembered d = record {
    base_metadata = record d.base_metadata { name = "" };
    local_ip = d.local_ip;
    local_host_name = d.local_host_name;
    port = if eqb_ℤ d.port (pos 0) then pos 1238 else d.port;
    state =
        if equal_fold d.state "ACTIVATED" then p.node_state_activated else p.node_state_deactivated;
  }

  -- Converting a base's status to node info and back keeps identity, version, cluster, addresses and
  -- a nonzero port. Port 0 becomes 1238, the name is lost, and the state becomes one of two. The
  -- node name must give the identity back, and the port must be a 64-bit integer.
  pub base_status_round_trip :
      (d : BaseStatus) (env : String)
      → p.extract_node_id_from_node_name (p.format_node_name d.base_metadata.identity env)
        ≡ d.base_metadata.identity
      → IsInt64 d.port
      → convert_base_status_from_node_info p (convert_base_status_to_node_info p d env)
        ≡ remembered d
  unfolding convert_base_status_to_node_info convert_base_status_from_node_info
  base_status_round_trip d env h k = rw h (rw (port_kept d.port k))
