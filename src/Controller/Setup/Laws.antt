-- ===== src/Controller/Setup/Laws.antt =====
-- SetupWithManager and the channel updateToken.
use module_controller.Prelude.{◌+◌, ◌≡◌, ap, true, none}
use module_controller.Platform.{Platform}
use module_controller.Controller.UpdateToken.{Reach, count_running, tokens_at_rest}
use module_controller.Controller.Setup.{Runtime, Setup, send_token, with_token, setup_with_manager}

module _ (p : Platform) {W : Type 0} (r : Runtime W) where
  abbrev granted : Setup W → Setup W
  granted s = record s {
    updaters = record s.updaters { tokens = s.updaters.tokens + 1; is_set_up = true };
  }

  -- A second setup waits for the channel while no goroutine runs the update loop.
  pub setup_with_manager_again :
      (s : Setup W)
      → Reach s.updaters
      → s.updaters.is_set_up ≡ true
      → count_running s.updaters.phases ≡ 0
      → setup_with_manager p r s ≡ none
  unfolding setup_with_manager
  setup_with_manager_again s reach done idle =
      ap (λ n. with_token p r (send_token p r s n)) (tokens_at_rest s.updaters reach done idle)
