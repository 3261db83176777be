-- ===== src/HttpTunnel/QueryLock/Runs.antt =====
-- Particular interleavings of calls of QueryAllBizStatusData.
use module_controller.Prelude.{String, refl, true, false, [], ◌∷◌}
use module_controller.HttpTunnel.QueryLock.{
  asking, missed, querying, unlocking, finished, Tunnel, Reach, here, next, lock, miss, mark, clear,
  query, unlock, again, done,
}

-- One call for the node `a` and one for the node `b` have begun.
abbrev pub two_calls : String → String → Tunnel
two_calls a b = record {
  locked = false;
  outdated = false;
  queries = asking a ∷ asking b ∷ [];
  queried = [];
}

-- All calls have ended, the flag is clear, and only `a` was queried, twice.
abbrev pub only_first_queried : String → Tunnel
only_first_queried a = record {
  locked = false;
  outdated = false;
  queries = finished ∷ finished ∷ finished ∷ [];
  queried = a ∷ a ∷ [];
}

-- Whatever the two nodes, a call for `b` that finds the lock taken by a call for `a` can be dropped:
-- the flag it sets makes the tunnel query `a` once more, and `b` is never queried
-- although all calls have ended and the flag is clear.
pub dropped_query : (a b : String) → Reach (two_calls a b) (only_first_queried a)
dropped_query a b =
    next
      (next
        (next
          (next
            (next
              (next
                (next
                  (next
                    (next
                      (next
                        (next (next here (lock _ a [] (asking b ∷ []) refl refl))
                          (clear _ a [] (asking b ∷ []) refl))
                        (miss _ b (querying a ∷ []) [] refl refl))
                      (mark _ b (querying a ∷ []) [] refl))
                    (query _ a [] (finished ∷ []) refl))
                  (unlock _ a [] (finished ∷ []) refl))
                (again _ a [] (finished ∷ []) refl refl))
              (lock _ a [] (finished ∷ finished ∷ []) refl refl))
            (clear _ a [] (finished ∷ finished ∷ []) refl))
          (query _ a [] (finished ∷ finished ∷ []) refl))
        (unlock _ a [] (finished ∷ finished ∷ []) refl))
      (done _ a [] (finished ∷ finished ∷ []) refl refl)

-- All calls have ended, one node was queried once, and the flag is still set.
abbrev pub flag_left_set : String → Tunnel
flag_left_set a = record {
  locked = false;
  outdated = true;
  queries = finished ∷ finished ∷ [];
  queried = a ∷ [];
}

-- A call that fails to lock and sets the flag only after the holder has read it leaves the flag set
-- with no call left that reads it: what the holder had fetched stays, also for the same node.
pub late_flag : (a b : String) → Reach (two_calls a b) (flag_left_set a)
late_flag a b =
    next
      (next
        (next
          (next
            (next
              (next (next here (lock _ a [] (asking b ∷ []) refl refl))
                (clear _ a [] (asking b ∷ []) refl))
              (query _ a [] (asking b ∷ []) refl))
            (miss _ b (unlocking a ∷ []) [] refl refl))
          (unlock _ a [] (missed b ∷ []) refl))
        (done _ a [] (missed b ∷ []) refl refl))
      (mark _ b (finished ∷ []) [] refl)
