-- ===== src/SelfTest/Statistic.antt =====
-- statistic: the least, the greatest and the average time until the pods and the deployments were
-- ready, in milliseconds. `millis` is Sub of two times in milliseconds. The maps are read in the
-- order of their entries.
pub mod Laws
use module_controller.Prelude.{
  ℕ, zero, suc, ◌+◌, ◌-◌, ◌/◌, eqb, String, Option, none, some, List, [], ◌∷◌, if◌then◌else◌,
  lookup,
}
use module_controller.Prelude.Int.{ℤ, pos, negsuc, ltb_ℤ, ◌+ℤ◌, int64}
use module_controller.Go.Effect.{Outcome, returns, panics}
use module_controller.SelfTest.{Times}

pub record TestResult : Type 0 where
  pub pod_min : ℤ
  pub pod_max : ℤ
  pub pod_avg : ℤ
  pub deploy_min : ℤ
  pub deploy_max : ℤ
  pub deploy_avg : ℤ

-- The four local variables; the count of valid entries is below the size of a map.
pub record Counters : Type 0 where
  pub min_millis : ℤ
  pub max_millis : ℤ
  pub total_millis : ℤ
  pub total_valid_num : ℕ

-- `1000 * 60 * 100`.
abbrev pub no_counters : Counters
no_counters = record {
  min_millis = pos 6000000;
  max_millis = pos 0;
  total_millis = pos 0;
  total_valid_num = 0;
}

unfoldable pub counted : ℤ → Counters → Counters
unfolding int64 ◌+ℤ◌
counted ready_cost c = record {
  min_millis = if ltb_ℤ ready_cost c.min_millis then ready_cost else c.min_millis;
  max_millis = if ltb_ℤ c.max_millis ready_cost then ready_cost else c.max_millis;
  total_millis = int64 (c.total_millis +ℤ ready_cost);
  total_valid_num = c.total_valid_num + 1;
}

-- Go's division of an int64 by a positive count, which truncates, and its panic.
unfoldable pub quotient : ℤ → ℕ → Outcome ℤ
quotient n zero = panics
quotient (pos n) (suc d) = returns (pos (n / suc d))
quotient (negsuc n) (suc d) =
    returns (if eqb (suc n / suc d) 0 then pos 0 else negsuc (suc n / suc d - 1))

module _ (millis : ℤ → ℤ → ℤ) where
  -- One round: an entry without a time of creation is skipped.
  unfoldable pub with_create_time : ℤ → Option ℤ → Counters → Counters
  unfolding counted
  with_create_time ready_time none c = c
  with_create_time ready_time (some create_time) c = counted (millis ready_time create_time) c

  unfoldable pub count_entries : List (String × ℤ) → List (String × ℤ) → Counters → Counters
  unfolding with_create_time lookup
  count_entries created [] c = c
  count_entries created ((name, ready_time) ∷ rest) c =
      count_entries created rest (with_create_time ready_time (lookup name created) c)

  abbrev pub result_of : Counters → Counters → Outcome ℤ → Outcome ℤ → Outcome TestResult
  result_of pods deployments (returns pod_avg) (returns deploy_avg) = returns (record {
    pod_min = pods.min_millis;
    pod_max = pods.max_millis;
    pod_avg = pod_avg;
    deploy_min = deployments.min_millis;
    deploy_max = deployments.max_millis;
    deploy_avg = deploy_avg;
  })
  result_of pods deployments _ _ = panics

  unfoldable pub statistic : Times → Outcome TestResult
  unfolding count_entries quotient
  statistic t =
      let pods = count_entries t.pod_name_to_create_time t.pod_name_to_ready_time no_counters in
      let deployments =
        count_entries t.deployment_name_to_create_time t.deployment_name_to_ready_time
          no_counters in
      result_of pods deployments (quotient pods.total_millis pods.total_valid_num)
        (quotient deployments.total_millis deployments.total_valid_num)
