-- ===== src/SelfTest/Running.antt =====
-- test and pressureTest of cmd/self-test/main.go as a whole, and predicate.go. The handlers of
-- SelfTest.antt run between the steps of test; what they write is part of the state `W`, so a sleep
-- may change the times.
use module_controller.Prelude.{
  ℕ, zero, suc, ◌+◌, String, Bool, false, Option, none, some, eqb, length, insert, if◌then◌else◌,
}
use module_controller.Prelude.Int.{ℤ, pos, int32}
use module_controller.Go.Effect.{Error, Outcome, returns, panics}
use module_controller.Platform.{Platform}
use module_controller.Platform.Kube.{Labels, Node, Pod, Deployment}
use module_controller.Controller.Predicates.{Event, created, updated, deleted, generic}
use module_controller.SelfTest.{Times, no_times, Yaml, construct_module_deployment}
use module_controller.SelfTest.Statistic.{TestResult, statistic}
use module_controller.SelfTest.Waiting.{
  Client, Ended, returned, exited, panicked, update_replicas, clean_resources,
}
use module_controller.SelfTest.Pressure.{Results, Progress, died, crashed, pressure}

-- The rest of what the test uses: creating a deployment, the clock, its global maps, and its file.
-- `load` is what follows the cleaning: it makes the file with an empty map if there is none, reads it
-- and decodes it, and none is an error of one of these.
pub record Surroundings (W : Type 0) : Type 0 where
  pub client : Client W
  pub create : Deployment → W → Option Error × W
  pub now : W → ℤ
  pub times : W → Times
  pub set_times : Times → W → W
  pub millis : ℤ → ℤ → ℤ
  pub yaml : Yaml
  pub template : String
  pub load : W → Option (Results TestResult) × W
  pub save : Results TestResult → W → Option Error × W

module _ (p : Platform) {W : Type 0} (o : Surroundings W) where
  note_created : Deployment → W → W
  unfolding insert
  note_created d w =
      let t = o.times w in
      o.set_times
        (record t {
          deployment_name_to_create_time = insert d.name (o.now w) t.deployment_name_to_create_time;
        })
        w

  after_create : Deployment → Option Error × W → Ended Unit × W
  unfolding note_created
  after_create d (some e, w) = (exited 2, w)
  after_create d (none, w) = (returned tt, note_created d w)

  create_one : Outcome Deployment → W → Ended Unit × W
  unfolding after_create
  create_one panics w = (panicked, w)
  create_one (returns d) w = after_create d (o.create d w)

  -- The loop over `i` from `index`, with `left` rounds to go.
  unfoldable pub create_modules : ℕ → ℕ → ℕ → W → Ended Unit × W
  unfolding create_one construct_module_deployment
  create_modules base_num index zero w = (returned tt, w)
  create_modules base_num index (suc left) w =
      let (e, w') =
        create_one
          (construct_module_deployment o.yaml o.template (pos base_num) (pos index) "0.0.1") w in
      let rest = create_modules base_num (index + 1) left w' in
      elim e [ returned u ↦ rest | exited code ↦ (exited code, w') | panicked ↦ (panicked, w') ]

  -- The loop until as many deployments are ready as there are modules.
  unfoldable pub wait_deployments : ℕ → ℕ → W → Option W
  wait_deployments zero module_num w = none
  wait_deployments (suc fuel) module_num w =
      let rest = wait_deployments fuel module_num (o.client.sleep 5 w) in
      if eqb (length (o.times w).deployment_name_to_ready_time) module_num then some w else rest

  measured : W → Ended TestResult × W
  unfolding statistic
  measured w = elim (statistic o.millis (o.times w)) [
    | returns r ↦ (returned r, w)
    | panics ↦ (panicked, w)
  ]

  after_wait : Option W → Option (Ended TestResult × W)
  unfolding measured
  after_wait none = none
  after_wait (some w) = some (measured (o.client.sleep 5 w))

  after_modules : ℕ → ℕ → Ended Unit × W → Option (Ended TestResult × W)
  unfolding wait_deployments after_wait
  after_modules fuel module_num (returned u, w) = after_wait (wait_deployments fuel module_num w)
  after_modules fuel module_num (exited code, w) = some (exited code, w)
  after_modules fuel module_num (panicked, w) = some (panicked, w)

  after_replicas : ℕ → ℕ → ℕ → Option (Option Error × W) → Option (Ended TestResult × W)
  unfolding create_modules after_modules
  after_replicas fuel base_num module_num none = none
  after_replicas fuel base_num module_num (some (some e, w)) = some (exited 2, w)
  after_replicas fuel base_num module_num (some (none, w)) =
      after_modules fuel module_num (create_modules base_num 1 module_num w)

  -- The result of the update is always nil. The fuel is that of each wait.
  unfoldable pub test : ℕ → ℕ → ℕ → W → Option (Ended TestResult × W)
  unfolding after_replicas update_replicas int32
  test fuel base_num module_num w =
      after_replicas fuel base_num module_num
        (update_replicas p o.client fuel (int32 (pos base_num)) (o.set_times no_times w))

  after_load : ℕ → Option (Results TestResult) × W → Option (Progress TestResult × W)
  unfolding test pressure clean_resources
  after_load fuel (none, w) = some (died 1, w)
  after_load fuel (some res, w) =
      pressure (test fuel) o.save (clean_resources p o.client fuel) res w

  after_cleaning : ℕ → Option (Ended Unit × W) → Option (Progress TestResult × W)
  unfolding after_load
  after_cleaning fuel none = none
  after_cleaning fuel (some (returned u, w)) = after_load fuel (o.load w)
  after_cleaning fuel (some (exited code, w)) = some (died code, w)
  after_cleaning fuel (some (panicked, w)) = some (crashed, w)

  unfoldable pub pressure_test : ℕ → W → Option (Progress TestResult × W)
  unfolding after_cleaning clean_resources
  pressure_test fuel w = after_cleaning fuel (clean_resources p o.client fuel w)

-- predicate.go: which events reach the handlers. `matches` is LabelSelector.Matches.
unfoldable pub vpod_predicates : (Labels → Bool) → Event Pod → Bool
vpod_predicates matches (created pod) = matches pod.labels
vpod_predicates matches (updated old pod) = matches pod.labels
vpod_predicates matches (deleted pod) = matches pod.labels
vpod_predicates matches (generic pod) = false

unfoldable pub vnode_predicate : (Labels → Bool) → Event Node → Bool
vnode_predicate matches (created node) = matches node.labels
vnode_predicate matches (updated old node) = matches node.labels
vnode_predicate matches (deleted node) = matches node.labels
vnode_predicate matches (generic node) = matches node.labels

unfoldable pub module_deployment_predicates : (Labels → Bool) → Event Deployment → Bool
module_deployment_predicates matches (created d) = matches d.labels
module_deployment_predicates matches (updated old d) = matches d.labels
module_deployment_predicates matches (deleted d) = matches d.labels
module_deployment_predicates matches (generic d) = matches d.labels
