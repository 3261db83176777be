-- ===== src/SelfTest/Pressure.antt =====
-- pressureTest of cmd/self-test/main.go: the loop over the numbers of bases and modules, which skips
-- what its file of results has and saves after each test. `run_test` is test, `save` marshals and
-- writes the results, `clean` is cleanResources; `none` means that their fuel was not enough.
use module_controller.Prelude.{ℕ, Option, none, some, List, [], ◌∷◌, eqb, if◌then◌else◌}
use module_controller.Go.Effect.{Error, Outcome, returns, panics}
use module_controller.SelfTest.Waiting.{Ended, returned, exited, panicked}

abbrev pub base_num_list : List ℕ
base_num_list = 1 ∷ 5 ∷ 10 ∷ 20 ∷ 40 ∷ 60 ∷ 80 ∷ 100 ∷ []

abbrev pub module_num_list : List ℕ
module_num_list = 1 ∷ 5 ∷ 10 ∷ 20 ∷ 50 ∷ 100 ∷ 200 ∷ 500 ∷ 1000 ∷ []

-- A Go map with numbers as keys.
module _ {V : Type 0} where
  unfoldable pub find : ℕ → List (ℕ × V) → Option V
  find key [] = none
  find key ((k, value) ∷ rest) = if eqb k key then some value else find key rest

  unfoldable pub put : ℕ → V → List (ℕ × V) → List (ℕ × V)
  put key new [] = (key, new) ∷ []
  put key new ((k, value) ∷ rest) =
      if eqb k key then (key, new) ∷ rest else (k, value) ∷ put key new rest

-- map[int]map[int]Result, where a null in the file of results makes a nil map, here none.
abbrev pub Results : Type 0 → Type 0
Results R = List (ℕ × Option (List (ℕ × R)))

module _ {R : Type 0} where
  -- `val`: a new map if the number of bases has none.
  abbrev pub val_of : Option (Option (List (ℕ × R))) → Option (List (ℕ × R))
  val_of none = some []
  val_of (some val) = val

  abbrev pub in_val : ℕ → Option (List (ℕ × R)) → Option R
  in_val module_num none = none
  in_val module_num (some val) = find module_num val

  -- `val[moduleNum]`, which a nil map has not.
  unfoldable pub result_at : Results R → ℕ → ℕ → Option R
  unfolding find
  result_at res base_num module_num = in_val module_num (val_of (find base_num res))

  abbrev pub write_val : ℕ → ℕ → R → Results R → Option (List (ℕ × R)) → Outcome (Results R)
  write_val base_num module_num r res none = panics
  write_val base_num module_num r res (some val) =
      returns (put base_num (some (put module_num r val)) res)

  -- `val[moduleNum] = r; res[baseNum] = val`: writing to a nil map panics.
  unfoldable pub put_result : ℕ → ℕ → R → Results R → Outcome (Results R)
  unfolding find put
  put_result base_num module_num r res =
      write_val base_num module_num r res (val_of (find base_num res))

-- Where the loop is: it goes on with the results, it has returned after a failure to save them, or
-- the process has ended.
pub data Progress (R : Type 0) : Type 0 where
  going : Results R → Progress R
  left : Results R → Progress R
  died : ℕ → Progress R
  crashed : Progress R

module _ {W R : Type 0} (run_test : ℕ → ℕ → W → Option (Ended R × W))
    (save : Results R → W → Option Error × W) (clean : W → Option (Ended Unit × W)) where
  unfoldable pub after_clean : Results R → Option (Ended Unit × W) → Option (Progress R × W)
  after_clean res none = none
  after_clean res (some (returned u, w)) = some (going res, w)
  after_clean res (some (exited code, w)) = some (died code, w)
  after_clean res (some (panicked, w)) = some (crashed, w)

  unfoldable pub after_save : Results R → Option Error × W → Option (Progress R × W)
  unfolding after_clean
  after_save res (some e, w) = some (left res, w)
  after_save res (none, w) = after_clean res (clean w)

  unfoldable pub after_put : Outcome (Results R) → W → Option (Progress R × W)
  unfolding after_save
  after_put panics w = some (crashed, w)
  after_put (returns saved) w = after_save saved (save saved w)

  unfoldable pub after_test : ℕ → ℕ → Results R → Option (Ended R × W) → Option (Progress R × W)
  unfolding after_put put_result
  after_test base_num module_num res none = none
  after_test base_num module_num res (some (returned r, w)) =
      after_put (put_result base_num module_num r res) w
  after_test base_num module_num res (some (exited code, w)) = some (died code, w)
  after_test base_num module_num res (some (panicked, w)) = some (crashed, w)

  -- One round, for a pair that may be done.
  unfoldable pub round : ℕ → ℕ → Option R → Results R → W → Option (Progress R × W)
  unfolding after_test
  round base_num module_num (some done) res w = some (going res, w)
  round base_num module_num none res w =
      after_test base_num module_num res (run_test base_num module_num w)

  abbrev pub then_with :
      Option (Progress R × W) → (Results R → W → Option (Progress R × W)) → Option (Progress R × W)
  then_with none f = none
  then_with (some (going res, w)) f = f res w
  then_with (some (left res, w)) f = some (left res, w)
  then_with (some (died code, w)) f = some (died code, w)
  then_with (some (crashed, w)) f = some (crashed, w)

  unfoldable pub each_module : ℕ → List ℕ → Results R → W → Option (Progress R × W)
  unfolding round result_at
  each_module base_num [] res w = some (going res, w)
  each_module base_num (m ∷ rest) res w =
      then_with (round base_num m (result_at res base_num m) res w) (each_module base_num rest)

  unfoldable pub each_base : List ℕ → List ℕ → Results R → W → Option (Progress R × W)
  unfolding each_module
  each_base [] modules res w = some (going res, w)
  each_base (b ∷ rest) modules res w =
      then_with (each_module b modules res w) (each_base rest modules)

  -- The body of pressureTest once the file of results is read.
  unfoldable pub pressure : Results R → W → Option (Progress R × W)
  unfolding each_base
  pressure res w = each_base base_num_list module_num_list res w
