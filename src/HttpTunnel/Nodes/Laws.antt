-- ===== src/HttpTunnel/Nodes/Laws.antt =====
-- What the tunnel knows of a node after it was registered or unregistered.
use module_controller.Prelude.{
  String, ◌≡◌, refl, ap, arith, Option, none, some, List, lookup, insert, lookup-insert,
  lookup-delete, ◌==◌, if◌then◌else◌, eq_iff, ◌∙◌, sym, Bool-cases, inl, inr,
}
use module_controller.Go.Effect.{returns}
use module_controller.Platform.{Platform}
use module_controller.Platform.Vnode.{NodeInfo}
use module_controller.Model.{BaseStatus}
use module_controller.Utils.{convert_base_status_from_node_info}
use module_controller.HttpTunnel.{HttpTunnel}
use module_controller.HttpTunnel.Nodes.{
  find, write, erase, find_base, with_map, write_unless_known, register_node, unregister_node,
}

-- What is known, or else what the node info tells.
abbrev pub known_or : BaseStatus → Option BaseStatus → BaseStatus
known_or status none = status
known_or status (some known) = known

find-erase :
    (m : Option (List (String × BaseStatus))) (id j : String)
    → find (erase m id) j ≡ (if id == j then none else find m j)
unfolding find erase
find-erase none id j = ground arith
find-erase (some m) id j = lookup-delete id j m

-- The node that is known answers for every text equal to its ID.
find_known :
    (id j : String) (m : Option (List (String × BaseStatus))) (known : BaseStatus)
    → find m id ≡ some known
    → find m j ≡ (if id == j then some known else find m j)
find_known id j m known k = elim (Bool-cases (id == j)) [
  | inl same ↦ rw same (ap (find m) (sym ((eq_iff id j).0 same)) ∙ k)
  | inr other ↦ rw other
]

module _ (p : Platform) {W : Type 0} where
  write_unless_known-find :
      (h : HttpTunnel W) (id j : String) (info : NodeInfo) (m : List (String × BaseStatus))
      (known : Option BaseStatus)
      → h.node_id_to_base_status_map ≡ some m
      → lookup id m ≡ known
      → (h' : HttpTunnel W) × (write_unless_known p h id info known ≡ returns h')
        × (find_base h' j ≡ (
            if id == j
            then some (known_or (convert_base_status_from_node_info p info) known)
            else find_base h j))
  unfolding write_unless_known find_base find write
  write_unless_known-find h id j info m (some known) e k =
      (h, refl, find_known id j h.node_id_to_base_status_map known (ap (λ t. find t id) e ∙ k))
  write_unless_known-find h id j info m none e k = (
    record h {
      node_id_to_base_status_map = some (insert id (convert_base_status_from_node_info p info) m);
    },
    ap (λ t. with_map h (write t id (convert_base_status_from_node_info p info))) e,
    lookup-insert id j (convert_base_status_from_node_info p info) m
        ∙ ap (λ t. if id == j then some (convert_base_status_from_node_info p info) else find t j)
            (sym e),
  )

  -- Registering a node on a started tunnel never panics. Afterwards the tunnel knows what it knew
  -- of the node's base before, or else what the node info tells; what it knows of other nodes
  -- stays.
  pub register_node-find :
      (info : NodeInfo) (h : HttpTunnel W) (m : List (String × BaseStatus)) (j : String)
      → h.node_id_to_base_status_map ≡ some m
      → (h' : HttpTunnel W) × (register_node p info h ≡ returns h')
        × (find_base h' j ≡ (
            if p.extract_node_id_from_node_name info.metadata.name == j
            then some (
                known_or
                  (convert_base_status_from_node_info p info)
                  (find_base h (p.extract_node_id_from_node_name info.metadata.name)))
            else find_base h j))
  unfolding register_node find_base find
  register_node-find info h m j e =
      let id = p.extract_node_id_from_node_name info.metadata.name in
      write_unless_known-find h id j info m (find_base h id) e (sym (ap (λ t. find t id) e))

  -- After a node is unregistered its base is unknown, and what is known of other nodes stays.
  pub unregister_node-find :
      (node_name : String) (h : HttpTunnel W) (j : String)
      → find_base (unregister_node p node_name h) j
        ≡ (if p.extract_node_id_from_node_name node_name == j then none else find_base h j)
  unfolding unregister_node find_base
  unregister_node-find node_name h j =
      find-erase h.node_id_to_base_status_map (p.extract_node_id_from_node_name node_name) j
