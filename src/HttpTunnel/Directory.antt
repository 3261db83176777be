-- ===== src/HttpTunnel/Directory.antt =====
-- The map of bases as a directory: what the tunnel knows after any sequence of heartbeats,
-- registrations and unregistrations, by an abstract directory that is a function.
use mathlib.Core.Path.{fun_ext}
use mathlib.Core.List.{foldl}
use module_controller.Prelude.{
  String, Option, none, some, List, [], ◌∷◌, ◌≡◌, ◌∙◌, refl, sym, ap, ◌==◌, if◌then◌else◌, insert,
  delete,
}
use module_controller.Go.Effect.{Outcome, returns, panics, ok}
use module_controller.Platform.{Platform}
use module_controller.Platform.Vnode.{NodeInfo}
use module_controller.Model.{BaseStatus}
use module_controller.Utils.{convert_base_status_from_node_info}
use module_controller.HttpTunnel.{HttpTunnel, Running}
use module_controller.HttpTunnel.Nodes.{
  write, erase, with_map, find_base, write_unless_known, register_node, unregister_node,
}
use module_controller.HttpTunnel.Nodes.Laws.{known_or, register_node-find, unregister_node-find}
use module_controller.HttpTunnel.Discovery.{Reply, heartbeat}
use module_controller.HttpTunnel.Discovery.Laws.{with_status, heartbeat-eq, with_status-find}

-- What happens to the map: POST /heartbeat, RegisterNode and UnRegisterNode.
pub data Event : Type 0 where
  heard : BaseStatus → Event
  registered : NodeInfo → Event
  unregistered : String → Event

abbrev pub Directory : Type 0
Directory = String → Option BaseStatus

module _ (p : Platform) where
  -- A heartbeat overwrites, a registration adds what is not there, an unregistration removes.
  abbrev pub updated : Directory → Event → Directory
  updated d (heard status) j = if status.base_metadata.identity == j then some status else d j
  updated d (registered info) j =
      let id = p.extract_node_id_from_node_name info.metadata.name in
      if id == j then some (known_or (convert_base_status_from_node_info p info) (d id)) else d j
  updated d (unregistered node_name) j =
      if p.extract_node_id_from_node_name node_name == j then none else d j

  module _ {W : Type 0} where
    abbrev answered : Outcome Reply × Running W → Outcome (Running W)
    answered (returns reply, r) = returns r
    answered (panics, r) = panics

    abbrev with_tunnel : W → Outcome (HttpTunnel W) → Outcome (Running W)
    with_tunnel w (returns h) = returns (record { tunnel = h; world = w })
    with_tunnel w panics = panics

    -- The tunnel's own operations.
    unfoldable pub handle : Event → Running W → Outcome (Running W)
    handle (heard status) r = answered (heartbeat p "POST" (ok status) r)
    handle (registered info) r = with_tunnel r.world (register_node p info r.tunnel)
    handle (unregistered node_name) r =
        returns (record r { tunnel = unregister_node p node_name r.tunnel })

    abbrev and_then : Outcome (Running W) → (Running W → Outcome (Running W)) → Outcome (Running W)
    and_then (returns r) f = f r
    and_then panics f = panics

    unfoldable pub handle_all : List Event → Running W → Outcome (Running W)
    unfolding handle
    handle_all [] r = returns r
    handle_all (e ∷ events) r = and_then (handle e r) (handle_all events)

    -- Start has made the map, and RegisterCallback has set the callback.
    pub record IsStarted (r : Running W) : Type 0 where
      pub entries : List (String × BaseStatus)
      pub made : r.tunnel.node_id_to_base_status_map ≡ some entries
      pub callback : NodeInfo → W → W
      pub set : r.tunnel.callbacks.on_base_discovered ≡ some callback

    -- One operation runs to its end, keeps the tunnel started, and does to the map what the
    -- directory does.
    record Handles (r : Running W) (e : Event) (o : Outcome (Running W)) : Type 0 where
      after : Running W
      ended : o ≡ returns after
      started : IsStarted after
      known : (j : String) → find_base after.tunnel j ≡ updated (find_base r.tunnel) e j

    -- The tunnel after a registration, by what was known.
    abbrev after_register :
        NodeInfo → List (String × BaseStatus) → Option BaseStatus → HttpTunnel W → HttpTunnel W
    after_register info entries (some known) h = h
    after_register info entries none h = record h {
      node_id_to_base_status_map = some (
          insert (p.extract_node_id_from_node_name info.metadata.name)
            (convert_base_status_from_node_info p info) entries);
    }

    register-after_register :
        (info : NodeInfo) (h : HttpTunnel W) (entries : List (String × BaseStatus))
        (known : Option BaseStatus)
        → h.node_id_to_base_status_map ≡ some entries
        → write_unless_known p h (p.extract_node_id_from_node_name info.metadata.name) info known
          ≡ returns (after_register info entries known h)
    unfolding write_unless_known write
    register-after_register info h entries (some known) e = refl
    register-after_register info h entries none e =
        ap
          (λ t. with_map h (
            write t (p.extract_node_id_from_node_name info.metadata.name)
              (convert_base_status_from_node_info p info)))
          e

    after_register-IsStarted :
        (info : NodeInfo) (r : Running W) (known : Option BaseStatus) (s : IsStarted r)
        → IsStarted (record r { tunnel = after_register info s.entries known r.tunnel })
    after_register-IsStarted info r (some known) s = s
    after_register-IsStarted info r none s = record {
      entries = _;
      made = refl;
      callback = s.callback;
      set = s.set;
    }

    -- What is known after an operation on the tunnel alone.
    abbrev known_after : Outcome (HttpTunnel W) → Directory
    known_after (returns h) = find_base h
    known_after panics = λ j. none

    handle-registered :
        (info : NodeInfo) (r : Running W)
        → IsStarted r
        → Handles r (registered info) (handle (registered info) r)
    unfolding handle register_node
    handle-registered info r s =
        let id = p.extract_node_id_from_node_name info.metadata.name in
        let before = find_base r.tunnel id in
        let done = register-after_register info r.tunnel s.entries before s.made in
        record {
          after = record r { tunnel = after_register info s.entries before r.tunnel };
          ended = ap (with_tunnel r.world) done;
          started = after_register-IsStarted info r before s;
          known = λ j.
              let (h', same, found) = register_node-find p info r.tunnel s.entries j s.made in
              ap (λ o. known_after o j) (sym done ∙ same) ∙ found;
        }

    handle-heard :
        (status : BaseStatus) (r : Running W)
        → IsStarted r
        → Handles r (heard status) (handle (heard status) r)
    unfolding handle
    handle-heard status r s = record {
      after = record {
        tunnel = with_status p r.tunnel s.entries status;
        world = s.callback _ r.world;
      };
      ended =
          ap answered (heartbeat-eq p status r.tunnel s.entries s.callback r.world s.made s.set);
      started = record { entries = _; made = refl; callback = s.callback; set = s.set };
      known = λ j. with_status-find p r.tunnel s.entries status j s.made;
    }

    handle-unregistered :
        (node_name : String) (r : Running W)
        → IsStarted r
        → Handles r (unregistered node_name) (handle (unregistered node_name) r)
    unfolding handle unregister_node erase
    handle-unregistered node_name r s = record {
      after = _;
      ended = refl;
      started = record {
        entries = delete (p.extract_node_id_from_node_name node_name) s.entries;
        made = ap (λ t. erase t (p.extract_node_id_from_node_name node_name)) s.made;
        callback = s.callback;
        set = s.set;
      };
      known = λ j. unregister_node-find p node_name r.tunnel j;
    }

    handle-Handles : (e : Event) (r : Running W) → IsStarted r → Handles r e (handle e r)
    handle-Handles (heard status) r s = handle-heard status r s
    handle-Handles (registered info) r s = handle-registered info r s
    handle-Handles (unregistered node_name) r s = handle-unregistered node_name r s

    -- A started tunnel refines the directory: any sequence of heartbeats, registrations and
    -- unregistrations runs to its end without a panic, the tunnel stays started, and what it knows
    -- of every base afterwards is what the directory says after the same sequence.
    pub handle_all-refines :
        (events : List Event) (r : Running W)
        → IsStarted r
        → (r' : Running W) × (handle_all events r ≡ returns r')
          × IsStarted r'
          × ((j : String) → find_base r'.tunnel j ≡ foldl updated (find_base r.tunnel) events j)
    unfolding handle_all
    handle_all-refines [] r s = (r, refl, s, λ j. refl)
    handle_all-refines (e ∷ events) r s =
        let h = handle-Handles e r s in
        let (r', ended, started, known) = handle_all-refines events h.after h.started in
        (
          r',
          ap (λ o. and_then o (handle_all events)) h.ended ∙ ended,
          started,
          λ j. known j ∙ ap (λ d. foldl updated d events j) (fun_ext h.known),
        )
