-- ===== src/Controller/Baseline.antt =====
-- QueryContainerBaseline: the containers that a base of some cluster should run.
use mathlib.Core.List.{append-nil, append_assoc, Mem, Perm, mem-cons, mem-cons_self}
use mathlib.Core.List.Perm
use mathlib.Core.Logic.Or
use module_controller.Prelude.{
  String, Bool, false, ◌&&◌, not, ◌≡◌, ◌≢◌, refl, List, [], ◌∷◌, ◌++◌, ◌==◌, Bool-cases, inl, inr,
  flat_map, if◌then◌else◌,
}
use module_controller.Prelude.Int.{ltb_ℤ, ◌≤ℤ◌}
use module_controller.Go.Effect.{Outcome, returns, panics, Result, ok, err, Go, pure, lift, ◌>>=◌}
use module_controller.Platform.{Platform}
use module_controller.Platform.Kube.{Container, Deployment}
use module_controller.Model.{QueryBaselineRequest}
use module_controller.Controller.{Cluster}
use module_controller.Controller.ClusterName.{get_cluster_name_from_deployment}

abbrev pub created_before : Deployment → Deployment → Bool
created_before a b = ltb_ℤ a.creation_timestamp b.creation_timestamp

-- No deployment stands directly before an older one.
abbrev pub IsByAge : List Deployment → Type 0
IsByAge [] = Unit
IsByAge (a ∷ []) = Unit
IsByAge (a ∷ b ∷ rest) = (a.creation_timestamp ≤ℤ b.creation_timestamp) × IsByAge (b ∷ rest)

-- sort.Slice, which is not stable: a sort by `less`, in some order where it does not decide.
pub record Sorter : Type 0 where
  pub slice : (Deployment → Deployment → Bool) → List Deployment → List Deployment
  pub slice-Perm : (ds : List Deployment) → Perm (slice created_before ds) ds
  pub slice-IsByAge : (ds : List Deployment) → IsByAge (slice created_before ds)

abbrev pub is_asked : String → String → Bool
is_asked asked name = not (name == "") && name == asked

module _ (p : Platform) where
  -- The loop over the sorted deployments, with what was appended before; the inner loop appends all
  -- containers of one deployment.
  collect : {W : Type 0} → String → List Container → List Deployment → Go W (List Container)
  collect asked containers [] = pure containers
  collect asked containers (d ∷ rest) = do
    name ← lift (get_cluster_name_from_deployment p d)
    collect asked (if is_asked asked name then containers ++ d.containers else containers) rest

  collect_listed : {W : Type 0} → Sorter → String → Result (List Deployment) → Go W (List Container)
  unfolding collect
  collect_listed sort asked (err e) = pure []
  collect_listed sort asked (ok items) = collect asked [] (sort.slice created_before items)

  unfoldable pub query_container_baseline :
      {W : Type 0} → Cluster W → Sorter → String → QueryBaselineRequest → Go W (List Container)
  unfolding collect_listed
  query_container_baseline c sort env req w =
      collect_listed sort req.cluster_name (c.list_deployments ((p.label_key_of_env, env) ∷ []) w) w

  abbrev pub named_as : String → Outcome String → Bool
  named_as asked panics = false
  named_as asked (returns name) = is_asked asked name

  -- The containers that one deployment contributes.
  abbrev pub baseline_of : String → Deployment → List Container
  baseline_of asked d =
      if named_as asked (get_cluster_name_from_deployment p d) then d.containers else []

  collect-eq :
      {W : Type 0} (asked : String) (containers : List Container) (ds : List Deployment) (w : W)
      → ((d : Deployment) → Mem d ds → get_cluster_name_from_deployment p d ≢ panics)
      → collect asked containers ds w ≡ (returns (containers ++ flat_map (baseline_of asked) ds), w)
  unfolding collect
  collect-eq asked containers [] w h = rw append-nil
  collect-eq asked containers (d ∷ ds) w h =
      after (get_cluster_name_from_deployment p d) refl
        (λ more. collect-eq asked more ds w (λ x m. h x (mem-cons.1 (Or.inr m))))
    where
      after :
          (name : Outcome String)
          → get_cluster_name_from_deployment p d ≡ name
          → ((more : List Container)
              → collect asked more ds w ≡ (returns (more ++ flat_map (baseline_of asked) ds), w))
          → collect asked containers (d ∷ ds) w
            ≡ (returns (containers ++ flat_map (baseline_of asked) (d ∷ ds)), w)
      after panics e ih = absurd (h d mem-cons_self e)
      after (returns name) e ih = elim (Bool-cases (is_asked asked name)) [
        | inl asked_for ↦
            rw (e, asked_for)
              (rw (← append_assoc containers d.containers (flat_map (baseline_of asked) ds))
                (ih (containers ++ d.containers)))
        | inr other ↦ rw (e, other) (ih containers)
      ]

  -- The answer of a query is the containers of the deployments whose cluster is the one asked for,
  -- deployment by deployment in the order of their creation, with all containers kept, those of the
  -- same name included. The list must succeed and no listed deployment's cluster name may panic.
  pub baseline_sorted :
      {W : Type 0} (c : Cluster W) (sort : Sorter) (env : String) (req : QueryBaselineRequest)
      (ds : List Deployment) (w : W)
      → c.list_deployments ((p.label_key_of_env, env) ∷ []) w ≡ ok ds
      → ((d : Deployment) → Mem d ds → get_cluster_name_from_deployment p d ≢ panics)
      → (sorted : List Deployment) × Perm sorted ds
        × IsByAge sorted
        × (query_container_baseline c sort env req w
            ≡ (returns (flat_map (baseline_of req.cluster_name) sorted), w))
  unfolding query_container_baseline
  baseline_sorted c sort env req ds w l h = (
    sort.slice created_before ds,
    sort.slice-Perm ds,
    sort.slice-IsByAge ds,
    rw l (
        collect-eq req.cluster_name [] (sort.slice created_before ds) w
          (λ d m. h d ((Perm.mem_iff (sort.slice-Perm ds)).0 m))),
  )
