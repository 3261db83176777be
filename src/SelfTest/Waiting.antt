-- ===== src/SelfTest/Waiting.antt =====
-- updateReplicas and cleanResources of cmd/self-test/main.go: requests to the cluster, and loops that
-- wait for it. A loop has fuel, and `none` means that the fuel was not enough; Waiting/Laws.antt
-- says how much is.
pub mod Laws
use Prim.Native.Char.{code}
use Prim.Native.String.{[], ◌∷◌}
use mathlib.Core.List
use mathlib.Core.List.{List}
use module_controller.Prelude.{
  ℕ, zero, suc, ◌+◌, String, Bool, true, false, Option, none, some, ◌==◌, ◌&&◌, eqb, filter, length,
  if◌then◌else◌,
}
use module_controller.Prelude.Int.{ℤ, pos, eqb_ℤ}
use module_controller.Go.Effect.{Error, Result, ok, err}
use module_controller.Platform.{Platform}
use module_controller.Platform.Kube.{Deployment, Node}
use module_controller.SelfTest.{has_condition}

-- The client and the clock, on the state `W` of everything outside. A list of pods is their number.
pub record Client (W : Type 0) : Type 0 where
  -- of the deployment `base` in the namespace `default`
  pub get_base : W → Result Deployment × W
  pub update : Deployment → W → Option Error × W
  pub list_nodes : W → Result (List Node) × W
  pub list_deployments : String → W → Result (List Deployment) × W
  pub delete : Deployment → W → Option Error × W
  pub count_pods : String → W → Result ℕ × W
  -- in seconds
  pub sleep : ℕ → W → W

-- strings.HasPrefix(s, prefix).
unfoldable pub has_prefix : String → String → Bool
has_prefix s [] = true
has_prefix [] (c ∷ prefix) = false
has_prefix (d ∷ s) (c ∷ prefix) = if eqb (code d) (code c) then has_prefix s prefix else false

-- How a function of main.go ends: it returns, or the process exits with a code or by a panic.
pub data Ended (A : Type 0) : Type 0 where
  returned : A → Ended A
  exited : ℕ → Ended A
  panicked : Ended A

-- `obj.Spec.Replicas != nil && *obj.Spec.Replicas == newReplicas`.
abbrev pub has_replicas : Option ℤ → ℤ → Bool
has_replicas none n = false
has_replicas (some m) n = eqb_ℤ m n

module _ (p : Platform) {W : Type 0} (k8s : Client W) where
  unfoldable pub is_ready_vnode : Node → Bool
  unfolding has_prefix
  is_ready_vnode node =
      has_prefix node.name "vnode" && has_condition p.node_ready p.condition_true node.conditions

  unfoldable pub count_ready : List Node → ℕ
  unfolding is_ready_vnode
  count_ready nodes = length (filter is_ready_vnode nodes)

  -- One round of the loop: whether all are ready, and the world after it. A list that fails is asked
  -- for again at once.
  unfoldable pub poll : ℤ → Result (List Node) × W → Bool × W
  unfolding count_ready
  poll new_replicas (err e, w) = (false, w)
  poll new_replicas (ok nodes, w) =
      if eqb_ℤ (pos (count_ready nodes)) new_replicas then (true, w) else (false, k8s.sleep 2 w)

  unfoldable pub wait_ready : ℕ → ℤ → W → Option (Option Error × W)
  unfolding poll
  wait_ready zero new_replicas w = none
  wait_ready (suc fuel) new_replicas w =
      let (ready, w') = poll new_replicas (k8s.list_nodes w) in
      let rest = wait_ready fuel new_replicas w' in if ready then some (none, w') else rest

  unfoldable pub after_update : ℕ → ℤ → Option Error × W → Option (Option Error × W)
  unfolding wait_ready
  after_update fuel new_replicas (some e, w) = some (some e, w)
  after_update fuel new_replicas (none, w) = wait_ready fuel new_replicas w

  -- An error of Get is only printed, and the wait follows.
  unfoldable pub after_get : ℕ → ℤ → Result Deployment × W → Option (Option Error × W)
  unfolding after_update wait_ready
  after_get fuel new_replicas (err e, w) = wait_ready fuel new_replicas w
  after_get fuel new_replicas (ok d, w) =
      if has_replicas d.replicas new_replicas
      then some (none, w)
      else after_update fuel new_replicas (k8s.update (record d { replicas = some new_replicas }) w)

  unfoldable pub update_replicas : ℕ → ℤ → W → Option (Option Error × W)
  unfolding after_get
  update_replicas fuel new_replicas w = after_get fuel new_replicas (k8s.get_base w)

  -- The loop over the deployments of the namespace `module`.
  unfoldable pub delete_all : List Deployment → W → Ended Unit × W
  delete_all List.[] w = (returned tt, w)
  delete_all (List.◌∷◌ d rest) w =
      let (e, w') = k8s.delete d w in
      let others = delete_all rest w' in elim e [ none ↦ others | some failed ↦ (exited 1, w') ]

  -- The loop until there is no pod; it sleeps after its last round too.
  unfoldable pub wait_released : ℕ → W → Option (Ended Unit × W)
  wait_released zero w = none
  wait_released (suc fuel) w =
      let (r, w') = k8s.count_pods "module" w in
      let slept = k8s.sleep 5 w' in
      let rest = wait_released fuel slept in
      elim r [
        | err e ↦ some (exited 1, w')
        | ok n ↦ if eqb n 0 then some (returned tt, slept) else rest
      ]

  unfoldable pub after_delete : ℕ → Ended Unit × W → Option (Ended Unit × W)
  unfolding wait_released
  after_delete fuel (exited code, w) = some (exited code, w)
  after_delete fuel (panicked, w) = some (panicked, w)
  after_delete fuel (returned u, w) = wait_released fuel w

  unfoldable pub after_list : ℕ → Result (List Deployment) × W → Option (Ended Unit × W)
  unfolding after_delete delete_all
  after_list fuel (err e, w) = some (exited 1, w)
  after_list fuel (ok ds, w) = after_delete fuel (delete_all ds w)

  unfoldable pub clean_resources : ℕ → W → Option (Ended Unit × W)
  unfolding after_list
  clean_resources fuel w = after_list fuel (k8s.list_deployments "module" w)
