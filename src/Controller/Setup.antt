-- ===== src/Controller/Setup.antt =====
-- SetupWithManager: the token, the client and the cache of the manager, the goroutine of the first
-- round, and the two watches. The goroutine's body is `initial_sync` of Controller/Handlers; here it
-- is only started.
pub mod Laws
use module_controller.Prelude.{
  ℕ, zero, suc, ◌+◌, String, Bool, true, Option, none, some, List, [], ◌∷◌,
}
use module_controller.Go.Effect.{Error}
use module_controller.Platform.{Platform}
use module_controller.Platform.Kube.{Labels}
use module_controller.Model.{component_module_deployment}
use module_controller.Controller.UpdateToken.{Updaters}

-- The kinds of object that are watched.
pub data Kind : Type 0 where
  nodes deployments : Kind

-- What controller-runtime does: it makes a controller with this name, and watches the objects of a
-- kind with these labels.
pub record Runtime (W : Type 0) : Type 0 where
  pub new : String → W → Option Error × W
  pub watch : Kind → Labels → W → Option Error × W

pub record Setup (W : Type 0) : Type 0 where
  pub env : String
  pub updaters : Updaters
  -- whether client and cache are those of the manager
  pub has_client : Bool
  -- the goroutines of the first round that were started
  pub started : ℕ
  pub world : W

module _ (p : Platform) {W : Type 0} (r : Runtime W) where
  abbrev selector : String → String → Labels
  selector component env = (p.label_key_of_component, component) ∷ (p.label_key_of_env, env) ∷ []

  -- `updateToken <- nil` on the channel of capacity 1: `none` if it is full, where the send waits.
  abbrev send_token : Setup W → ℕ → Option (Setup W)
  send_token s zero = some (record s {
    updaters = record s.updaters { tokens = s.updaters.tokens + 1; is_set_up = true };
  })
  send_token s (suc n) = none

  abbrev ended : Setup W → Option Error × W → Option Error × Setup W
  ended s (e, w) = (e, record s { world = w })

  abbrev watch_deployments : Setup W → Option Error × W → Option Error × Setup W
  watch_deployments s (some e, w) = (some e, record s { world = w })
  watch_deployments s (none, w) =
      ended s (r.watch deployments (selector component_module_deployment s.env) w)

  abbrev watch_all : Setup W → Option Error × W → Option Error × Setup W
  watch_all s (some e, w) = (some e, record s { world = w })
  watch_all s (none, w) =
      watch_deployments (record s { started = s.started + 1 })
        (r.watch nodes (selector p.component_vnode s.env) w)

  abbrev with_token : Option (Setup W) → Option (Option Error × Setup W)
  with_token none = none
  with_token (some s) =
      some
        (watch_all (record s { has_client = true }) (r.new "module-deployment-controller" s.world))

  -- `none` if the send of the token waits.
  unfoldable pub setup_with_manager : Setup W → Option (Option Error × Setup W)
  setup_with_manager s = with_token (send_token s s.updaters.tokens)
