-- ===== src/HttpTunnel/QueryLock/Termination/Progress.antt =====
-- Calls of QueryAllBizStatusData can always go on, and so come to an end.
use module_controller.Prelude.{
  ℕ, ◌≤◌, zero, suc, ◌≡◌, refl, ap, arith, true, false, List, [], ◌∷◌, ◌++◌, ◌⊎◌, inl, inr,
  Bool-cases, if◌then◌else◌,
}
use module_controller.HttpTunnel.QueryLock.{
  Query, asking, missed, clearing, querying, unlocking, checking, finished, Tunnel, idle, Step,
  Reach, next, lock, miss, mark, clear, query, unlock, again, done, holds, count_holders, IsGuarded,
  Reach-IsGuarded,
}
use module_controller.HttpTunnel.QueryLock.Termination.{
  continues, Run, begin, proceed, live, count_unfinished, potential, potential-Step,
}

-- The first call that has not ended, if there is one.
record Live (qs : List Query) : Type 0 where
  query_left : Query
  before : List Query
  after : List Query
  placed : qs ≡ before ++ query_left ∷ after
  is_live : live query_left ≡ 1

find-Live : (qs : List Query) → (count_unfinished qs ≡ 0) ⊎ Live qs
find-Live [] = inl refl
find-Live (finished ∷ qs) = elim (find-Live qs) [
  | inl c ↦ inl (omega (arith, c))
  | inr l ↦ inr (record {
    query_left = l.query_left;
    before = finished ∷ l.before;
    after = l.after;
    placed = ap (λ xs. finished ∷ xs) l.placed;
    is_live = l.is_live;
  })
]
find-Live (q ∷ qs) =
    inr (record { query_left = q; before = []; after = qs; placed = refl; is_live = refl })

-- A call that has not ended can always take a step, since TryLock does not wait.
record Next (t : Tunnel) : Type 0 where
  after : Tunnel
  step : Step t after
  is_old : continues step ≡ true

query_step :
    (t : Tunnel) (q : Query) (before after : List Query)
    → t.queries ≡ before ++ q ∷ after
    → live q ≡ 1
    → Next t
query_step t (asking n) before after e l = elim (Bool-cases t.locked) [
  | inl held ↦ record { after = _; step = miss t n before after e held; is_old = refl }
  | inr free ↦ record { after = _; step = lock t n before after e free; is_old = refl }
]
query_step t (missed n) before after e l = record {
  after = _;
  step = mark t n before after e;
  is_old = refl;
}
query_step t (clearing n) before after e l = record {
  after = _;
  step = clear t n before after e;
  is_old = refl;
}
query_step t (querying n) before after e l = record {
  after = _;
  step = query t n before after e;
  is_old = refl;
}
query_step t (unlocking n) before after e l = record {
  after = _;
  step = unlock t n before after e;
  is_old = refl;
}
query_step t (checking n) before after e l = elim (Bool-cases t.outdated) [
  | inl set ↦ record { after = _; step = again t n before after e set; is_old = refl }
  | inr unset ↦ record { after = _; step = done t n before after e unset; is_old = refl }
]
query_step t finished before after e l = cc

Live-Next : (t : Tunnel) → Live t.queries → Next t
Live-Next t l = query_step t l.query_left l.before l.after l.placed l.is_live

-- A run to a state in which every call has ended.
record Ends (s : Tunnel) : Type 0 where
  length : ℕ
  last : Tunnel
  run : Run s length last
  no_call : count_unfinished last.queries ≡ 0

Run-Ends : (fuel : ℕ) {s t : Tunnel} {n : ℕ} → Run s n t → potential t ≤ fuel → Ends s
Run-Ends zero {t = t} r l = elim (find-Live t.queries) [
  | inl c ↦ record { length = _; last = t; run = r; no_call = c }
  | inr left ↦
      let next = Live-Next t left in absurd (omega (arith, potential-Step next.step next.is_old))
]
Run-Ends (suc fuel) {t = t} r l = elim (find-Live t.queries) [
  | inl c ↦ record { length = _; last = t; run = r; no_call = c }
  | inr left ↦
      let next = Live-Next t left in
      Run-Ends fuel (proceed r next.step next.is_old)
        (omega (arith, potential-Step next.step next.is_old))
]

Run-Reach : {s : Tunnel} {n : ℕ} {u : Tunnel} → Reach idle s → Run s n u → Reach idle u
Run-Reach r begin = r
Run-Reach r (proceed run step p) = next (Run-Reach r run) step

holds-live : (q : Query) → holds q ≤ live q
holds-live (asking n) = omega arith
holds-live (missed n) = omega arith
holds-live (clearing n) = omega arith
holds-live (querying n) = omega arith
holds-live (unlocking n) = omega arith
holds-live (checking n) = omega arith
holds-live finished = omega arith

holders-count_unfinished : (qs : List Query) → count_holders qs ≤ count_unfinished qs
holders-count_unfinished [] = omega arith
holders-count_unfinished (q ∷ qs) = omega (arith, holds-live q, holders-count_unfinished qs)

-- The lock is free when no call is left.
unlocked : (t : Tunnel) → IsGuarded t → count_unfinished t.queries ≡ 0 → t.locked ≡ false
unlocked t g c = elim (Bool-cases t.locked) [
  | inr free ↦ free
  | inl held ↦ absurd (
      omega (
        arith,
        g.holders,
        ap {B = ℕ} (λ b. if b then 1 else 0) held,
        holders-count_unfinished t.queries,
        c,
      ))
]

-- From every state that any interleaving of calls reaches, the calls can run to their ends without
-- a new call: there is a run after which no call is left and the lock is free.
pub queries_end :
    (t : Tunnel)
    → Reach idle t
    → (n : ℕ) × (u : Tunnel) × Run t n u × (count_unfinished u.queries ≡ 0) × (u.locked ≡ false)
queries_end t r =
    let e = Run-Ends (potential t) begin (omega arith) in
    let guarded : IsGuarded e.last =
      Reach-IsGuarded (record { holders = refl }) (Run-Reach r e.run) in
    (e.length, e.last, e.run, e.no_call, unlocked e.last guarded e.no_call)
