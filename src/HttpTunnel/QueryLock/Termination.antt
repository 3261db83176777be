-- ===== src/HttpTunnel/QueryLock/Termination.antt =====
-- QueryAllBizStatusData calls itself again while the flag is set. Once no new call arrives, the
-- calls still come to an end: a potential goes down with each of their steps.
pub mod Progress
use module_controller.Prelude.{
  ℕ, String, ◌+◌, ◌*◌, ◌≤◌, ◌<◌, zero, suc, ◌≡◌, refl, ap, arith, Bool, true, false, List, [], ◌∷◌,
  ◌++◌, if◌then◌else◌,
}
use module_controller.HttpTunnel.QueryLock.{
  Query, asking, missed, clearing, querying, unlocking, checking, finished, Tunnel, Step, arrive,
  lock, miss, mark, clear, query, unlock, again, done,
}

-- A step of a call that is already there.
abbrev pub continues : {t u : Tunnel} → Step t u → Bool
continues (arrive t n) = false
continues _ = true

-- What happens in a number of steps without a new call.
pub data Run (s : Tunnel) : ℕ → Tunnel → Type 0 where
  begin : Run s 0 s
  proceed :
      {n : ℕ} {t u : Tunnel}
      → Run s n t
      → (step : Step t u) → continues step ≡ true
      → Run s (suc n) u

-- How far a call is from its end, while the flag is clear and while it is set.
abbrev rank : Bool → Query → ℕ
rank false (asking n) = 7
rank false (clearing n) = 6
rank false (querying n) = 5
rank false (unlocking n) = 4
rank false (checking n) = 3
rank false (missed n) = 2
rank true (querying n) = 6
rank true (unlocking n) = 5
rank true (checking n) = 4
rank true (asking n) = 3
rank true (clearing n) = 2
rank true (missed n) = 2
rank _ finished = 0

abbrev sum_ranks : Bool → List Query → ℕ
sum_ranks f [] = 0
sum_ranks f (q ∷ qs) = rank f q + sum_ranks f qs

abbrev pub live : Query → ℕ
live finished = 0
live _ = 1

abbrev pub count_unfinished : List Query → ℕ
count_unfinished [] = 0
count_unfinished (q ∷ qs) = live q + count_unfinished qs

abbrev pub budget : ℕ → ℕ
budget zero = 0
budget (suc n) = budget n + 14 * n + 2

abbrev phase : Bool → List Query → ℕ
phase true qs = 7 * count_unfinished qs + 1 + sum_ranks true qs
phase false qs = sum_ranks false qs

abbrev pub potential : Tunnel → ℕ
potential t = budget (count_unfinished t.queries) + phase t.outdated t.queries

sum_ranks-append :
    (f : Bool) (xs ys : List Query) → sum_ranks f (xs ++ ys) ≡ sum_ranks f xs + sum_ranks f ys
sum_ranks-append f [] ys = omega arith
sum_ranks-append f (x ∷ xs) ys = omega (arith, sum_ranks-append f xs ys)

count_unfinished-append :
    (xs ys : List Query) → count_unfinished (xs ++ ys) ≡ count_unfinished xs + count_unfinished ys
count_unfinished-append [] ys = omega arith
count_unfinished-append (x ∷ xs) ys = omega (arith, count_unfinished-append xs ys)

rank-live : (f : Bool) (q : Query) → rank f q ≤ 7 * live q
rank-live false (asking n) = omega arith
rank-live false (missed n) = omega arith
rank-live false (clearing n) = omega arith
rank-live false (querying n) = omega arith
rank-live false (unlocking n) = omega arith
rank-live false (checking n) = omega arith
rank-live false finished = omega arith
rank-live true (asking n) = omega arith
rank-live true (missed n) = omega arith
rank-live true (clearing n) = omega arith
rank-live true (querying n) = omega arith
rank-live true (unlocking n) = omega arith
rank-live true (checking n) = omega arith
rank-live true finished = omega arith

sum_ranks-count_unfinished : (f : Bool) (qs : List Query) → sum_ranks f qs ≤ 7 * count_unfinished qs
sum_ranks-count_unfinished f [] = omega arith
sum_ranks-count_unfinished f (q ∷ qs) =
    omega (arith, rank-live f q, sum_ranks-count_unfinished f qs)

-- One call moves from `x` to what is in `ys`.
ranks_moved :
    (f : Bool) (before after : List Query) (x y : Query) (qs : List Query)
    → qs ≡ before ++ x ∷ after
    → sum_ranks f (before ++ y ∷ after) + rank f x ≡ sum_ranks f qs + rank f y
ranks_moved f before after x y qs e = omega (
  arith,
  ap (sum_ranks f) e,
  sum_ranks-append f before (x ∷ after),
  sum_ranks-append f before (y ∷ after),
)

count_moved :
    (before after : List Query) (x y : Query) (qs : List Query)
    → qs ≡ before ++ x ∷ after
    → count_unfinished (before ++ y ∷ after) + live x ≡ count_unfinished qs + live y
count_moved before after x y qs e = omega (
  arith,
  ap count_unfinished e,
  count_unfinished-append before (x ∷ after),
  count_unfinished-append before (y ∷ after),
)

phase_bound : (f : Bool) (qs : List Query) → phase f qs ≤ 14 * count_unfinished qs + 1
phase_bound false qs = omega (arith, sum_ranks-count_unfinished false qs)
phase_bound true qs = omega (arith, sum_ranks-count_unfinished true qs)

-- The potential goes down when the ranks do and no call ends.
phase_lowers :
    (f : Bool) (xs ys : List Query)
    → count_unfinished ys ≡ count_unfinished xs
    → sum_ranks f ys < sum_ranks f xs
    → budget (count_unfinished ys) + phase f ys < budget (count_unfinished xs) + phase f xs
phase_lowers false xs ys c l = omega (arith, ap budget c)
phase_lowers true xs ys c l = omega (arith, ap budget c)

call_lowers :
    (f : Bool) (before after : List Query) (x y : Query) (qs : List Query)
    → qs ≡ before ++ x ∷ after
    → live x ≡ live y
    → rank f y < rank f x
    → budget (count_unfinished (before ++ y ∷ after)) + phase f (before ++ y ∷ after)
      < budget (count_unfinished qs) + phase f qs
call_lowers f before after x y qs e l r =
    phase_lowers f qs (before ++ y ∷ after) (omega (arith, count_moved before after x y qs e))
      (omega (arith, ranks_moved f before after x y qs e))

-- A call ends: the budget pays for whatever the phase becomes.
ended :
    (f g : Bool) (before after : List Query) (x : Query) (qs : List Query)
    → qs ≡ before ++ x ∷ after
    → live x ≡ 1
    → budget (count_unfinished (before ++ finished ∷ after)) + phase g (before ++ finished ∷ after)
      < budget (count_unfinished qs) + phase f qs
ended f g before after x qs e l =
    let c : count_unfinished qs ≡ suc (count_unfinished (before ++ finished ∷ after)) =
      omega (arith, count_moved before after x finished qs e) in
    omega (arith, ap budget c, phase_bound g (before ++ finished ∷ after))

-- The flag is cleared: what is left of the ranks is below what the set flag stood for.
cleared :
    (f : Bool) (n : String) (before after : List Query) (qs : List Query)
    → qs ≡ before ++ clearing n ∷ after
    → budget (count_unfinished (before ++ querying n ∷ after))
        + phase false (before ++ querying n ∷ after)
      < budget (count_unfinished qs) + phase f qs
cleared false n before after qs e =
    call_lowers false before after (clearing n) (querying n) qs e refl (omega arith)
cleared true n before after qs e =
    let c : count_unfinished (before ++ querying n ∷ after) ≡ count_unfinished qs =
      omega (arith, count_moved before after (clearing n) (querying n) qs e) in
    omega (arith, ap budget c, sum_ranks-count_unfinished false (before ++ querying n ∷ after))

-- In either state of the flag.
both :
    (f : Bool) (x y : Query)
    → rank false y < rank false x
    → rank true y < rank true x
    → rank f y < rank f x
both false x y a b = a
both true x y a b = b

-- A call that asks again takes the place of the call that ends.
asks_again :
    (f : Bool) (n : String) (before after : List Query) (qs : List Query)
    → f ≡ true
    → qs ≡ before ++ checking n ∷ after
    → budget (count_unfinished (before ++ asking n ∷ finished ∷ after))
        + phase f (before ++ asking n ∷ finished ∷ after)
      < budget (count_unfinished qs) + phase f qs
asks_again f n before after qs o e =
    let new = before ++ asking n ∷ finished ∷ after in
    phase_lowers f qs new
      (omega (
        arith,
        ap count_unfinished e,
        count_unfinished-append before (checking n ∷ after),
        count_unfinished-append before (asking n ∷ finished ∷ after),
      ))
      (omega (
        arith,
        ap (sum_ranks f) e,
        sum_ranks-append f before (checking n ∷ after),
        sum_ranks-append f before (asking n ∷ finished ∷ after),
        ap (λ g. rank g (checking n)) o,
        ap (λ g. rank g (asking n)) o,
        ap (λ g. rank g finished) o,
      ))

-- Every step of a call that is already there lowers the potential.
pub potential-Step :
    {t u : Tunnel} (step : Step t u) → continues step ≡ true → potential u < potential t
potential-Step (arrive t n) p = cc
potential-Step (lock t n before after e l) p =
    call_lowers t.outdated before after (asking n) (clearing n) t.queries e refl
      (both t.outdated (asking n) (clearing n) (omega arith) (omega arith))
potential-Step (miss t n before after e l) p =
    call_lowers t.outdated before after (asking n) (missed n) t.queries e refl
      (both t.outdated (asking n) (missed n) (omega arith) (omega arith))
potential-Step (mark t n before after e) p =
    ended t.outdated true before after (missed n) t.queries e refl
potential-Step (clear t n before after e) p = cleared t.outdated n before after t.queries e
potential-Step (query t n before after e) p =
    call_lowers t.outdated before after (querying n) (unlocking n) t.queries e refl
      (both t.outdated (querying n) (unlocking n) (omega arith) (omega arith))
potential-Step (unlock t n before after e) p =
    call_lowers t.outdated before after (unlocking n) (checking n) t.queries e refl
      (both t.outdated (unlocking n) (checking n) (omega arith) (omega arith))
potential-Step (again t n before after e o) p = asks_again t.outdated n before after t.queries o e
potential-Step (done t n before after e o) p =
    ended t.outdated t.outdated before after (checking n) t.queries e refl

Run-potential : {s : Tunnel} {n : ℕ} {t : Tunnel} → Run s n t → n + potential t ≤ potential s
Run-potential begin = omega arith
Run-potential (proceed r step p) = omega (arith, Run-potential r, potential-Step step p)

-- Once no call arrives, the calls that have not ended, `m` of them, take at most
-- `budget m + 14 * m + 1` steps in any order and any interleaving, however often they set the flag
-- and ask again.
pub Run-bounded :
    (s t : Tunnel) (n : ℕ)
    → Run s n t
    → n ≤ budget (count_unfinished s.queries) + 14 * count_unfinished s.queries + 1
Run-bounded s t n r = omega (arith, Run-potential r, phase_bound s.outdated s.queries)
