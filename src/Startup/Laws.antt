-- ===== src/Startup/Laws.antt =====
-- When startTunnels returns, and which tunnel.
use module_controller.Prelude.{
  ℕ, zero, suc, ◌+◌, String, ◌≡◌, refl, arith, Option, none, some, List, [], ◌∷◌, length, ◌∙◌,
}
use module_controller.Go.Effect.{Error, Outcome, returns, panics, Go}
use module_controller.Startup.{
  TunnelKind, enabled_tunnels, Counts, counted, chosen, start_all, start_tunnels,
}

module _ {W : Type 0} (start : TunnelKind → Go W (Option Error)) where
  -- A run over these tunnels in which no Start panics, with the number of those that failed.
  pub data Tried : List TunnelKind → ℕ → W → W → Type 0 where
    no_more : (w : W) → Tried [] 0 w w
    started :
        {rest : List TunnelKind} {failures : ℕ} {w' : W} (k : TunnelKind) (w v : W)
        → start k w ≡ (returns none, v)
        → Tried rest failures v w'
        → Tried (k ∷ rest) failures w w'
    failed :
        {rest : List TunnelKind} {failures : ℕ} {w' : W} (k : TunnelKind) (e : Error) (w v : W)
        → start k w ≡ (returns (some e), v)
        → Tried rest failures v w'
        → Tried (k ∷ rest) (suc failures) w w'

  abbrev counts_of : ℕ → ℕ → Counts
  counts_of a b = record { succeeded = a; failed = b }

  abbrev counted_in : W → ℕ → ℕ → Outcome Counts × W
  counted_in w a b = (returns (counts_of a b), w)

  counts_eq : (a b c d : ℕ) (w : W) → a ≡ c → b ≡ d → counted_in w a b ≡ counted_in w c d
  counts_eq a b c d w e f = rw (e, f)

  -- Every tunnel of the run is counted once, as started or as failed.
  start_all-counts :
      (n : Counts) (kinds : List TunnelKind) (failures : ℕ) (w w' : W)
      → Tried kinds failures w w'
      → (successes : ℕ) × (start_all start n kinds w ≡ (
        returns (record { succeeded = n.succeeded + successes; failed = n.failed + failures }),
        w',
      ))
        × (successes + failures ≡ length kinds)
  unfolding start_all
  start_all-counts n [] failures w w' (no_more v) = (
    0,
    counts_eq n.succeeded n.failed (n.succeeded + 0) (n.failed + 0) w (omega arith) (omega arith),
    refl,
  )
  start_all-counts n (k ∷ rest) failures w w' (started k' w1 v e t) =
      let (s, counts, all) = start_all-counts (counted n none) rest failures v w' t in
      (
        suc s,
        rw e (
            counts
            ∙ counts_eq (n.succeeded + 1 + s) (n.failed + failures) (n.succeeded + suc s)
                (n.failed + failures) w' (omega arith) refl),
        omega (arith, all),
      )
  start_all-counts n (k ∷ rest) failures w w' (failed {failures = m} k' x w1 v e t) =
      let (s, counts, all) = start_all-counts (counted n (some x)) rest m v w' t in
      (
        s,
        rw e (
            counts
            ∙ counts_eq (n.succeeded + s) (n.failed + 1 + m) (n.succeeded + s) (n.failed + suc m) w'
                refl (omega arith)),
        omega (arith, all),
      )

  -- What startTunnels makes of a run: the first tunnel, if there is one and none failed.
  abbrev pub result_of : List TunnelKind → ℕ → Outcome TunnelKind
  result_of [] failures = panics
  result_of (k ∷ rest) zero = returns k
  result_of (k ∷ rest) (suc m) = panics

  chosen-result_of :
      (kinds : List TunnelKind) (failures successes : ℕ) (w : W)
      → successes + failures ≡ length kinds
      → chosen kinds failures successes w ≡ (result_of kinds failures, w)
  chosen-result_of [] zero zero w e = refl
  chosen-result_of [] zero (suc n) w e = refl
  chosen-result_of [] (suc m) n w e = refl
  chosen-result_of (k ∷ rest) zero zero w e = ground (arith, e)
  chosen-result_of (k ∷ rest) zero (suc n) w e = refl
  chosen-result_of (k ∷ rest) (suc m) n w e = refl

  -- Every enabled tunnel is tried, and startTunnels then returns the first one if none failed; it
  -- panics if one failed or if none is enabled. No Start may panic.
  pub start_tunnels-Tried :
      (get_env : String → String → String) (failures : ℕ) (w w' : W)
      → Tried (enabled_tunnels get_env) failures w w'
      → start_tunnels start get_env w ≡ (result_of (enabled_tunnels get_env) failures, w')
  unfolding start_tunnels
  start_tunnels-Tried get_env failures w w' t =
      let (s, counts, all) =
        start_all-counts (counts_of 0 0) (enabled_tunnels get_env) failures w w' t in
      rw (counts ∙ counts_eq (0 + s) (0 + failures) s failures w' (omega arith) (omega arith))
        (chosen-result_of (enabled_tunnels get_env) failures s w' all)
