-- ===== src/HttpTunnel/RunTests.antt =====
-- Longer runs of the HTTP tunnel: sequences of operations, and steps of the query lock.
use mathlib.Core.List.{foldl}
use module_controller.Prelude.{
  ℕ, ◌+◌, ◌*◌, ◌≤◌, String, ◌≡◌, refl, true, false, none, some, List, [], ◌∷◌,
}
use module_controller.Prelude.Int.{pos}
use module_controller.Go.Effect.{returns}
use module_controller.Utils.{convert_base_status_to_node_info}
use module_controller.Samples.{platform, base}
use module_controller.HttpTunnel.{Running}
use module_controller.HttpTunnel.Nodes.{find_base}
use module_controller.HttpTunnel.Directory.{
  Event, heard, registered, unregistered, updated, handle_all, IsStarted, handle_all-refines,
}
use module_controller.HttpTunnel.QueryLock.{Tunnel, here, next, arrive, lock, clear, idle, asking}
use module_controller.HttpTunnel.QueryLock.Termination.{
  Run, begin, proceed, count_unfinished, budget, Run-bounded,
}
use module_controller.HttpTunnel.QueryLock.Termination.Progress.{queries_end}

abbrev running : Running (List String)
running = record {
  tunnel = record {
    env = "prod";
    port = pos 7777;
    ready = true;
    callbacks = record {
      on_base_discovered = some (λ info w. info.metadata.name ∷ w);
      on_base_status_arrived = none;
      on_all_biz_status_arrived = none;
      on_single_biz_status_arrived = none;
    };
    online_node = some [];
    node_id_to_base_status_map = some [];
  };
  world = [];
}

abbrev events : List Event
events =
    heard base
    ∷ registered (convert_base_status_to_node_info platform base "prod")
    ∷ unregistered "base2"
    ∷ []

handle_all-refines_example :
    (r' : Running (List String)) × (handle_all platform events running ≡ returns r')
    × IsStarted platform r'
    × ((j : String)
        → find_base r'.tunnel j ≡ foldl (updated platform) (find_base running.tunnel) events j)
handle_all-refines_example =
    handle_all-refines platform events running
      (record { entries = []; made = refl; callback = _; set = refl })

abbrev one_call : Tunnel
one_call = record idle { queries = asking "base1" ∷ [] }

Run-bounded_example : 2 ≤ budget 1 + 14 * 1 + 1
Run-bounded_example = Run-bounded one_call _ 2 (
    proceed (proceed begin (lock one_call "base1" [] [] refl refl) refl)
      (clear _ "base1" [] [] refl) refl)

queries_end_example :
    (n : ℕ) × (u : Tunnel) × Run one_call n u
    × (count_unfinished u.queries ≡ 0)
    × (u.locked ≡ false)
queries_end_example = queries_end one_call (next here (arrive idle "base1"))
