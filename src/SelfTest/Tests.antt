-- ===== src/SelfTest/Tests.antt =====
-- Runs of the self test's functions.
use module_controller.Prelude.{
  ℕ, suc, ◌≤◌, ◌≡◌, refl, none, some, List, [], ◌∷◌, lookup, ◌↔◌, ◌⊎◌, arith, leb, if◌then◌else◌,
}
use module_controller.Prelude.Int.{ℤ, pos, ◌-ℤ◌}
use module_controller.Go.Effect.{returns, panics, ok}
use module_controller.Platform.Kube.{Node}
use module_controller.Samples.{platform, node, deployment}
use module_controller.SelfTest.{Times}
use module_controller.SelfTest.Statistic.{TestResult, statistic}
use module_controller.SelfTest.Statistic.Laws.{
  count_valid, IsOrdered, statistic-panics_iff, statistic-IsOrdered,
}
use module_controller.SelfTest.Waiting.{
  Client, update_replicas, poll, count_ready, is_ready_vnode, has_prefix,
}
use module_controller.SelfTest.Waiting.Laws.{polled, updated, update_replicas-waits}

abbrev times : Times
times = record {
  pod_name_to_create_time = ("pod1", pos 1000) ∷ ("pod2", pos 1000) ∷ [];
  pod_name_to_ready_time = ("pod1", pos 3000) ∷ ("pod2", pos 7000) ∷ [];
  deployment_name_to_create_time = ("d1", pos 500) ∷ [];
  deployment_name_to_ready_time = ("d1", pos 7000) ∷ [];
}

abbrev difference : ℤ → ℤ → ℤ
difference a b = a -ℤ b

statistic-panics_iff_example : (statistic difference times ≡ panics) ↔ (
    (count_valid times.pod_name_to_create_time times.pod_name_to_ready_time ≡ 0)
    ⊎ (count_valid times.deployment_name_to_create_time times.deployment_name_to_ready_time ≡ 0))
statistic-panics_iff_example = statistic-panics_iff difference times

abbrev constant : ℤ → ℤ → ℤ
constant a b = pos 2000

statistic-IsOrdered_example :
    (r : TestResult) × (statistic constant times ≡ returns r) × IsOrdered r
unfolding lookup
statistic-IsOrdered_example =
    statistic-IsOrdered constant times
      (λ t e. (2000, refl, omega arith), (λ t e. (2000, refl, omega arith), tt))
      (λ t e. (2000, refl, omega arith), tt) (omega arith) (omega arith) (omega arith) (omega arith)

-- The world counts the seconds that were slept; a vnode is ready after two of them.
abbrev ready_node : Node
ready_node = record node { name = "vnode.base1" }

abbrev client : Client ℕ
client = record {
  get_base = λ w. (ok deployment, w);
  update = λ d w. (none, w);
  list_nodes = λ w. (ok (if leb 2 w then ready_node ∷ [] else []), w);
  list_deployments = λ namespace w. (ok [], w);
  delete = λ d w. (none, w);
  count_pods = λ namespace w. (ok 0, w);
  sleep = λ seconds w. suc (suc w);
}

update_replicas-waits_example :
    (round : ℕ) × (round ≤ 1)
    × (last : ℕ) × (update_replicas platform client 2 (pos 1) 0 ≡ some (none, last))
    × (nodes : List Node) × (client.list_nodes (polled platform client (pos 1) round 0)
        ≡ (ok nodes, last))
    × (pos (count_ready platform client nodes) ≡ pos 1)
unfolding poll count_ready is_ready_vnode has_prefix
update_replicas-waits_example =
    update_replicas-waits platform client 2 (pos 1) 0 0 1 (updated deployment 0 0 refl refl refl)
      (omega arith) refl
