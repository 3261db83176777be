-- ===== src/Startup/Main/Exactly.antt =====
-- Programs that run the manager exactly if a condition holds.
use mathlib.Core.Path.{subst}
use mathlib.Core.Bool.{true≢false}
use module_controller.Prelude.{
  ℕ, String, Bool, true, false, zero, suc, ◌≡◌, ◌∙◌, sym, refl, ap, Option, none, some, List, [],
  ◌∷◌, ◌↔◌,
}
use module_controller.Go.Effect.{Error, Outcome, returns, panics, Go, go_on}
use module_controller.Startup.{
  TunnelKind, Counts, counted, chosen, start_all, start_tunnels, enabled_tunnels,
}
use module_controller.Startup.Main.{
  Process, going, finished, exited, crashed, next, if_got, unless_fatal, unless_failed,
  unless_panics,
}

going-injective : {A : Type 0} (a x : A) → going a ≡ going x → a ≡ x
going-injective {A} a x e = ap of_going e
  where
    of_going : Process A → A
    of_going (going y) = y
    of_going _ = a

module _ {W : Type 0} (ran : W → Bool) where
  -- It leaves alone whether the manager was run.
  abbrev pub Quiet : {A : Type 0} → (W → A × W) → Type 0
  Quiet m = (w : W) → ran (m w).1 ≡ ran w

  -- From a world where the manager was not run, it runs the manager exactly if `S` holds.
  pub record Exactly {A : Type 0} (m : W → Process A × W) (S : W → Type 0) : Type 0 where
    pub iff : (w : W) → ran w ≡ false → (ran (m w).1 ≡ true) ↔ S w

  stopped_iff : {T : Type 0} (w : W) → ran w ≡ false → ¬ T → (ran w ≡ true) ↔ T
  stopped_iff w q n = (λ r. absurd (true≢false (sym r ∙ q)), λ t. absurd (n t))

  pub next-Exactly :
      {A B : Type 0} (a : Process A) (f : A → W → Process B × W) (S : A → W → Type 0) (w : W)
      → ran w ≡ false
      → ((x : A) → Exactly (f x) (S x))
      → (ran (next a f w).1 ≡ true) ↔ ((x : A) × (a ≡ going x) × S x w)
  next-Exactly {A} (going a) f S w q h = (
    λ r. (a, refl, ((h a).iff w q).0 r),
    λ s. ((h a).iff w q).1 (subst (λ y. S y w) (sym (going-injective a s.0 s.1)) s.2),
  )
  next-Exactly finished f S w q h = stopped_iff w q (λ s. cc s.1)
  next-Exactly (exited code) f S w q h = stopped_iff w q (λ s. cc s.1)
  next-Exactly crashed f S w q h = stopped_iff w q (λ s. cc s.1)

  module _ {B : Type 0} (f : W → Process B × W) (S : W → Type 0) (rest : Exactly f S) where
    pub fatal_iff :
        (o : Option Error) (w : W)
        → ran w ≡ false
        → (ran (next (unless_fatal o) (λ (u : Unit). f) w).1 ≡ true) ↔ ((o ≡ none) × S w)
    fatal_iff none w q = (λ r. (refl, (rest.iff w q).0 r), λ s. (rest.iff w q).1 s.1)
    fatal_iff (some e) w q = stopped_iff w q (λ s. cc s.0)

    pub failed_iff :
        (o : Option Error) (w : W)
        → ran w ≡ false
        → (ran (next (unless_failed o) (λ (u : Unit). f) w).1 ≡ true) ↔ ((o ≡ none) × S w)
    failed_iff none w q = (λ r. (refl, (rest.iff w q).0 r), λ s. (rest.iff w q).1 s.1)
    failed_iff (some e) w q = stopped_iff w q (λ s. cc s.0)

    pub got_iff :
        (b : Bool) (w : W)
        → ran w ≡ false
        → (ran (next (if_got b) (λ (u : Unit). f) w).1 ≡ true) ↔ ((b ≡ true) × S w)
    got_iff true w q = (λ r. (refl, (rest.iff w q).0 r), λ s. (rest.iff w q).1 s.1)
    got_iff false w q = stopped_iff w q (λ s. cc s.0)

  pub crashed_iff :
      {B : Type 0} (f : TunnelKind → W → Process B × W) (S : TunnelKind → W → Type 0)
      → ((kind : TunnelKind) → Exactly (f kind) (S kind))
      → (o : Outcome TunnelKind) (w : W) → ran w ≡ false
      → (ran (next (unless_panics o) f w).1 ≡ true)
        ↔ ((kind : TunnelKind) × (o ≡ returns kind) × S kind w)
  crashed_iff f S rest panics w q = stopped_iff w q (λ s. cc s.1)
  crashed_iff f S rest (returns k) w q =
      let (to, from) = next-Exactly (going k) f S w q rest in
      (
        λ r. let (x, e, s) = to r in (x, ap returns (going-injective k x e), s),
        λ s. from (s.0, ap unless_panics s.1, s.2),
      )

  go_on-Quiet :
      {A B : Type 0} (o : Outcome A) (f : A → Go W B) (v w : W)
      → ran v ≡ ran w
      → ((a : A) → Quiet (f a))
      → ran (go_on o f v).1 ≡ ran w
  go_on-Quiet (returns a) f v w q r = r a v ∙ q
  go_on-Quiet panics f v w q r = q

  start_all-Quiet :
      (start : TunnelKind → Go W (Option Error)) (n : Counts) (kinds : List TunnelKind)
      → ((k : TunnelKind) → Quiet (start k))
      → Quiet (start_all start n kinds)
  unfolding start_all
  start_all-Quiet start n [] q w = refl
  start_all-Quiet start n (k ∷ rest) q w =
      go_on-Quiet (start k w).0 (λ e. start_all start (counted n e) rest) (start k w).1 w (q k w)
        (λ e. start_all-Quiet start (counted n e) rest q)

  chosen-Quiet :
      (kinds : List TunnelKind) (failed succeeded : ℕ) → Quiet (chosen kinds failed succeeded)
  chosen-Quiet kinds (suc failed) succeeded w = refl
  chosen-Quiet kinds zero zero w = refl
  chosen-Quiet [] zero (suc n) w = refl
  chosen-Quiet (k ∷ rest) zero (suc n) w = refl

  pub start_tunnels-Quiet :
      (start : TunnelKind → Go W (Option Error)) (get_env : String → String → String)
      → ((k : TunnelKind) → Quiet (start k))
      → Quiet (start_tunnels start get_env)
  unfolding start_tunnels
  start_tunnels-Quiet start get_env q w =
      let all =
        start_all start (record { succeeded = 0; failed = 0 }) (enabled_tunnels get_env) w in
      go_on-Quiet all.0 (λ n. chosen (enabled_tunnels get_env) n.failed n.succeeded) all.1 w
        (start_all-Quiet start _ (enabled_tunnels get_env) q w)
        (λ n. chosen-Quiet (enabled_tunnels get_env) n.failed n.succeeded)
