-- ===== src/Controller/UpdateToken.antt =====
-- The channel updateToken of capacity 1: NewModuleDeploymentController makes it,
-- SetupWithManager puts one token in, and updateDeploymentReplicas takes it at its start and puts it
-- back when it returns or panics. The goroutines that run the loop are a list of phases.
use module_controller.Prelude.{
  ℕ, ◌+◌, ◌-◌, ◌≤◌, ◌<◌, ◌≡◌, refl, ap, arith, Bool, true, false, List, [], ◌∷◌, ◌++◌,
  if◌then◌else◌,
}

pub data Phase : Type 0 where
  waiting running finished : Phase

pub record Updaters : Type 0 where
  -- the tokens in the channel
  pub tokens : ℕ
  -- whether SetupWithManager has put its token in
  pub is_set_up : Bool
  pub phases : List Phase

abbrev pub new_controller : Updaters
new_controller = record { tokens = 0; is_set_up = false; phases = [] }

-- A send waits until the channel has room, a receive until it has a token. `set_up` happens once,
-- since main, which makes the controller, calls SetupWithManager once.
pub data Step : Updaters → Updaters → Type 0 where
  set_up :
      (u : Updaters)
      → u.is_set_up ≡ false
      → u.tokens < 1
      → Step u (record u { tokens = u.tokens + 1; is_set_up = true })
  arrive : (u : Updaters) → Step u (record u { phases = waiting ∷ u.phases })
  take :
      (u : Updaters) (before after : List Phase)
      → u.phases ≡ before ++ waiting ∷ after
      → 0 < u.tokens
      → Step u (record u { tokens = u.tokens - 1; phases = before ++ running ∷ after })
  put_back :
      (u : Updaters) (before after : List Phase)
      → u.phases ≡ before ++ running ∷ after
      → u.tokens < 1
      → Step u (record u { tokens = u.tokens + 1; phases = before ++ finished ∷ after })

pub data Reach : Updaters → Type 0 where
  start : Reach new_controller
  next : {u v : Updaters} → Reach u → Step u v → Reach v

abbrev is_running : Phase → ℕ
is_running running = 1
is_running _ = 0

abbrev pub count_running : List Phase → ℕ
count_running [] = 0
count_running (x ∷ xs) = is_running x + count_running xs

count_running-append :
    (xs ys : List Phase) → count_running (xs ++ ys) ≡ count_running xs + count_running ys
count_running-append [] ys = omega arith
count_running-append (x ∷ xs) ys = omega (arith, count_running-append xs ys)

-- Before the setup there is no token and nobody runs; after it there is exactly one, in the channel
-- or with the goroutine that runs.
record IsBalanced (u : Updaters) : Type 0 where
  balance : u.tokens + count_running u.phases ≡ (if u.is_set_up then 1 else 0)

Step-IsBalanced : {u v : Updaters} → Step u v → IsBalanced u → IsBalanced v
Step-IsBalanced (set_up u fresh room) b = ground (arith, b.balance)
Step-IsBalanced (arrive u) b = ground (arith, b.balance)
Step-IsBalanced (take u before after e h) b = record {
  balance = omega (
    arith,
    b.balance,
    ap count_running e,
    count_running-append before (waiting ∷ after),
    count_running-append before (running ∷ after),
  );
}
Step-IsBalanced (put_back u before after e h) b = record {
  balance = omega (
    arith,
    b.balance,
    ap count_running e,
    count_running-append before (running ∷ after),
    count_running-append before (finished ∷ after),
  );
}

Reach-IsBalanced : {u : Updaters} → Reach u → IsBalanced u
Reach-IsBalanced start = record { balance = refl }
Reach-IsBalanced (next r s) = Step-IsBalanced s (Reach-IsBalanced r)

one_or_none : (b : Bool) → (if b then 1 else 0) ≤ 1
one_or_none true = omega arith
one_or_none false = omega arith

-- Before the setup the channel is empty; after it, it is full while no goroutine runs.
pub tokens_before_setup : (u : Updaters) → Reach u → u.is_set_up ≡ false → u.tokens ≡ 0
tokens_before_setup u r fresh = ground (arith, (Reach-IsBalanced r).balance)

pub tokens_at_rest :
    (u : Updaters) → Reach u → u.is_set_up ≡ true → count_running u.phases ≡ 0 → u.tokens ≡ 1
tokens_at_rest u r done idle = ground (arith, (Reach-IsBalanced r).balance)

-- However the goroutines interleave, at most one runs the update loop at a time.
pub at_most_one_running : (u : Updaters) → Reach u → count_running u.phases ≤ 1
at_most_one_running u r = omega (arith, (Reach-IsBalanced r).balance, one_or_none u.is_set_up)

-- A goroutine that runs the loop finds room in the channel when it puts its token back, so it never
-- waits there.
pub put_back_never_waits :
    (u : Updaters) (before after : List Phase)
    → Reach u
    → u.phases ≡ before ++ running ∷ after
    → u.tokens < 1
put_back_never_waits u before after r e = omega (
  arith,
  (Reach-IsBalanced r).balance,
  one_or_none u.is_set_up,
  ap count_running e,
  count_running-append before (running ∷ after),
)
