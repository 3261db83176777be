-- ===== src/HttpTunnel/QueryLock.antt =====
-- The lock queryAllBizLock and the flag queryAllBizDataOutdated of QueryAllBizStatusData, under any
-- interleaving of its calls. One step is one access to the lock or the flag, or the query itself
-- (Commands.antt has its body).
pub mod Runs
pub mod Termination
use module_controller.Prelude.{
  ℕ, ◌+◌, ◌≤◌, String, ◌≡◌, refl, ap, arith, Bool, true, false, List, [], ◌∷◌, ◌++◌, if◌then◌else◌,
}

-- Where a call for a node stands.
pub data Query : Type 0 where
  -- before TryLock
  asking : String → Query
  -- TryLock failed, and the flag is not yet set
  missed : String → Query
  -- it holds the lock, and the flag is not yet cleared
  clearing : String → Query
  -- it holds the lock and looks the base up to ask it
  querying : String → Query
  -- its deferred function is about to unlock
  unlocking : String → Query
  -- it has unlocked and is about to read the flag
  checking : String → Query
  finished : Query

pub record Tunnel : Type 0 where
  pub locked : Bool
  pub outdated : Bool
  pub queries : List Query
  -- the nodes that were queried, the latest first; the base of one that is not known is not asked
  pub queried : List String

abbrev pub idle : Tunnel
idle = record { locked = false; outdated = false; queries = []; queried = [] }

pub data Step : Tunnel → Tunnel → Type 0 where
  arrive : (t : Tunnel) (n : String) → Step t (record t { queries = asking n ∷ t.queries })
  lock :
      (t : Tunnel) (n : String) (before after : List Query)
      → t.queries ≡ before ++ asking n ∷ after
      → t.locked ≡ false
      → Step t (record t { locked = true; queries = before ++ clearing n ∷ after })
  miss :
      (t : Tunnel) (n : String) (before after : List Query)
      → t.queries ≡ before ++ asking n ∷ after
      → t.locked ≡ true
      → Step t (record t { queries = before ++ missed n ∷ after })
  mark :
      (t : Tunnel) (n : String) (before after : List Query)
      → t.queries ≡ before ++ missed n ∷ after
      → Step t (record t { outdated = true; queries = before ++ finished ∷ after })
  clear :
      (t : Tunnel) (n : String) (before after : List Query)
      → t.queries ≡ before ++ clearing n ∷ after
      → Step t (record t { outdated = false; queries = before ++ querying n ∷ after })
  query :
      (t : Tunnel) (n : String) (before after : List Query)
      → t.queries ≡ before ++ querying n ∷ after
      → Step t (record t { queries = before ++ unlocking n ∷ after; queried = n ∷ t.queried })
  unlock :
      (t : Tunnel) (n : String) (before after : List Query)
      → t.queries ≡ before ++ unlocking n ∷ after
      → Step t (record t { locked = false; queries = before ++ checking n ∷ after })
  -- `go h.QueryAllBizStatusData(nodeName)`, for the node of the call that ends
  again :
      (t : Tunnel) (n : String) (before after : List Query)
      → t.queries ≡ before ++ checking n ∷ after
      → t.outdated ≡ true
      → Step t (record t { queries = before ++ asking n ∷ finished ∷ after })
  done :
      (t : Tunnel) (n : String) (before after : List Query)
      → t.queries ≡ before ++ checking n ∷ after
      → t.outdated ≡ false
      → Step t (record t { queries = before ++ finished ∷ after })

pub data Reach (s : Tunnel) : Tunnel → Type 0 where
  here : Reach s s
  next : {t u : Tunnel} → Reach s t → Step t u → Reach s u

abbrev pub holds : Query → ℕ
holds (clearing n) = 1
holds (querying n) = 1
holds (unlocking n) = 1
holds _ = 0

abbrev pub count_holders : List Query → ℕ
count_holders [] = 0
count_holders (q ∷ qs) = holds q + count_holders qs

count_holders-append :
    (xs ys : List Query) → count_holders (xs ++ ys) ≡ count_holders xs + count_holders ys
count_holders-append [] ys = omega arith
count_holders-append (x ∷ xs) ys = omega (arith, count_holders-append xs ys)

-- The lock is taken exactly while one call holds it.
pub record IsGuarded (t : Tunnel) : Type 0 where
  pub holders : count_holders t.queries ≡ (if t.locked then 1 else 0)

-- A step that moves one call from `x` to `y`.
moved :
    (before after : List Query) (x y : Query) (qs : List Query)
    → qs ≡ before ++ x ∷ after
    → count_holders (before ++ y ∷ after) + holds x ≡ count_holders qs + holds y
moved before after x y qs e = omega (
  arith,
  ap count_holders e,
  count_holders-append before (x ∷ after),
  count_holders-append before (y ∷ after),
)

Step-IsGuarded : {t u : Tunnel} → Step t u → IsGuarded t → IsGuarded u
Step-IsGuarded (arrive t n) g = record { holders = ground (arith, g.holders) }
Step-IsGuarded (lock t n before after e l) g = record {
  holders = ground (arith, g.holders, moved before after (asking n) (clearing n) t.queries e);
}
Step-IsGuarded (miss t n before after e l) g = record {
  holders = ground (arith, g.holders, moved before after (asking n) (missed n) t.queries e);
}
Step-IsGuarded (mark t n before after e) g = record {
  holders = ground (arith, g.holders, moved before after (missed n) finished t.queries e);
}
Step-IsGuarded (clear t n before after e) g = record {
  holders = ground (arith, g.holders, moved before after (clearing n) (querying n) t.queries e);
}
Step-IsGuarded (query t n before after e) g = record {
  holders = ground (arith, g.holders, moved before after (querying n) (unlocking n) t.queries e);
}
Step-IsGuarded (unlock t n before after e) g = record {
  holders = ground (arith, g.holders, moved before after (unlocking n) (checking n) t.queries e);
}
Step-IsGuarded (again t n before after e o) g = record {
  holders = ground (
    arith,
    g.holders,
    moved before after (checking n) finished t.queries e,
    count_holders-append before (asking n ∷ finished ∷ after),
    count_holders-append before (finished ∷ after),
  );
}
Step-IsGuarded (done t n before after e o) g = record {
  holders = ground (arith, g.holders, moved before after (checking n) finished t.queries e);
}

pub Reach-IsGuarded : {s t : Tunnel} → IsGuarded s → Reach s t → IsGuarded t
Reach-IsGuarded g here = g
Reach-IsGuarded g (next r s) = Step-IsGuarded s (Reach-IsGuarded g r)

-- However the calls interleave, at most one asks a base at a time.
pub at_most_one_query : (t : Tunnel) → Reach idle t → count_holders t.queries ≤ 1
at_most_one_query t r =
    let g : IsGuarded t = Reach-IsGuarded (record { holders = refl }) r in ground (arith, g.holders)
