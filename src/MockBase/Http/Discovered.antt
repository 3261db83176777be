-- ===== src/MockBase/Http/Discovered.antt =====
-- The heartbeats of a mock base, received by the HTTP tunnel.
use module_controller.Prelude.{String, false, ◌≡◌, refl, ap, ◌∙◌, Option, none, some, eq_refl}
use module_controller.Go.Effect.{Error, ok}
use module_controller.Platform.{Platform}
use module_controller.Utils.{convert_base_status_to_node_info}
use module_controller.HttpTunnel.{Running as Tunnel}
use module_controller.HttpTunnel.Nodes.{find_base}
use module_controller.HttpTunnel.Discovery.{heartbeat}
use module_controller.HttpTunnel.Discovery.Laws.{heartbeat-eq, with_status, with_status-find}
use module_controller.HttpTunnel.Directory.{IsStarted}
use module_controller.MockBase.Http.{
  Json, MockHttpBase, Running, heart_beat, heart_beat_url, post_heart_beat, start, leave,
}

module _ (p : Platform) {W : Type 0} (j : Json)
    (post : String → String → Tunnel W → Option Error × Tunnel W) where
  -- The posts of the base, in any of its states, reach the tunnel, which reads the status that the
  -- base wrote.
  pub record IsReceived (b : MockHttpBase) : Type 0 where
    pub received :
        (state : String) (t : Tunnel W)
        → let s = heart_beat (record b { curr_state = state }) in
          post heart_beat_url (j.write_status s) t ≡ (none, (heartbeat p "POST" (ok s) t).1)

  -- What the tunnel knows of the base once it was sent its heartbeat.
  post_heart_beat-known :
      (r : Running (Tunnel W))
      → IsReceived r.base
      → IsStarted p r.world
      → let (e, r') = post_heart_beat j post r in
        (e ≡ none)
        × (r'.base ≡ r.base)
        × (find_base r'.world.tunnel r.base.metadata.identity ≡ some (heart_beat r.base))
        × IsStarted p r'.world
  unfolding post_heart_beat
  post_heart_beat-known r i s =
      let t = r.world.tunnel in
      let status = heart_beat r.base in
      let sent : post heart_beat_url (j.write_status status) r.world ≡ (
        none,
        record {
          tunnel = with_status p t s.entries status;
          world = s.callback (convert_base_status_to_node_info p status t.env) r.world.world;
        },
      ) =
        i.received r.base.curr_state r.world
        ∙ ap (λ o. (none, o.1))
            (heartbeat-eq p status t s.entries s.callback r.world.world s.made s.set) in
      rw sent (
        refl,
        refl,
        with_status-find p t s.entries status status.base_metadata.identity s.made
            ∙ rw (eq_refl r.base.metadata.identity) refl,
        record { entries = _; made = refl; callback = s.callback; set = s.set },
      )

  -- Once Start has sent its heartbeat, the tunnel knows the base as an activated one at its own
  -- port; once the base has left, the tunnel knows it as deactivated. The tunnel must have been
  -- started and must have its callback, and the network must bring it the heartbeats.
  pub start-leave :
      (r : Running (Tunnel W))
      → IsReceived r.base
      → IsStarted p r.world
      → let (e, started) = start j post r in
        let left = leave j post started in
        (e ≡ none)
        × (find_base started.world.tunnel r.base.metadata.identity
            ≡ some (heart_beat (record r.base { curr_state = "ACTIVATED" })))
        × (find_base left.world.tunnel r.base.metadata.identity
            ≡ some (heart_beat (record r.base { curr_state = "DEACTIVATED" })))
  unfolding start leave
  start-leave r i s =
      let live = record r { base = record r.base { exited = false; curr_state = "ACTIVATED" } } in
      let (sent, same, known, again) =
        post_heart_beat-known live (record { received = i.received }) s in
      let started = (post_heart_beat j post live).1 in
      let gone = record started { base = record started.base { curr_state = "DEACTIVATED" } } in
      let (e, b, left, ended) =
        post_heart_beat-known gone (record { received = i.received }) again in
      (sent, known, left)
