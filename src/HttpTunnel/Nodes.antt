-- ===== src/HttpTunnel/Nodes.antt =====
-- The map from node IDs to the status of their bases.
pub mod Laws
use module_controller.Prelude.{String, ◌≡◌, Option, none, some, List, [], lookup, insert, delete}
use module_controller.Go.Effect.{Outcome, returns, panics, Error, message}
use module_controller.Platform.{Platform}
use module_controller.Platform.Vnode.{NodeInfo}
use module_controller.Model.{BaseStatus}
use module_controller.Utils.{convert_base_status_from_node_info}
use module_controller.HttpTunnel.{HttpTunnel}

-- A read of a nil map finds nothing, a delete from it does nothing, a write to it panics.
unfoldable pub find : Option (List (String × BaseStatus)) → String → Option BaseStatus
unfolding lookup
find none id = none
find (some m) id = lookup id m

unfoldable pub write :
    Option (List (String × BaseStatus))
    → String
    → BaseStatus
    → Outcome (Option (List (String × BaseStatus)))
unfolding insert
write none id status = panics
write (some m) id status = returns (some (insert id status m))

unfoldable pub erase :
    Option (List (String × BaseStatus)) → String → Option (List (String × BaseStatus))
unfolding delete
erase none id = none
erase (some m) id = some (delete id m)

abbrev pub network_info_not_found : Error
network_info_not_found = message "network info not found"

module _ {W : Type 0} where
  abbrev pub with_map :
      HttpTunnel W → Outcome (Option (List (String × BaseStatus))) → Outcome (HttpTunnel W)
  with_map h panics = panics
  with_map h (returns m) = returns (record h { node_id_to_base_status_map = m })

  unfoldable pub find_base : HttpTunnel W → String → Option BaseStatus
  unfolding find
  find_base h id = find h.node_id_to_base_status_map id

module _ (p : Platform) {W : Type 0} where
  unfoldable pub write_unless_known :
      HttpTunnel W → String → NodeInfo → Option BaseStatus → Outcome (HttpTunnel W)
  unfolding write
  write_unless_known h id info (some known) = returns h
  write_unless_known h id info none =
      with_map h (write h.node_id_to_base_status_map id (convert_base_status_from_node_info p info))

  -- RegisterNode always returns a nil error.
  unfoldable pub register_node : NodeInfo → HttpTunnel W → Outcome (HttpTunnel W)
  unfolding write_unless_known find_base
  register_node info h =
      let id = p.extract_node_id_from_node_name info.metadata.name in
      write_unless_known h id info (find_base h id)

  unfoldable pub unregister_node : String → HttpTunnel W → HttpTunnel W
  unfolding erase
  unregister_node node_name h = record h {
    node_id_to_base_status_map =
        erase h.node_id_to_base_status_map (p.extract_node_id_from_node_name node_name);
  }
