-- ===== src/Controller/Replicas/Settling.antt =====
-- updateDeploymentReplicas run again after the patches it sent were applied.
use mathlib.Core.Path.{fun_ext}
use mathlib.Core.List.{append-nil, append_assoc}
use module_controller.Prelude.{
  String, ◌≡◌, ◌≢◌, ◌∙◌, refl, ap, sym, arith, Option, none, some, List, [], ◌∷◌, ◌++◌, All,
  flat_map, map, if◌then◌else◌, ◌==◌, eq_iff, eq_refl, eq-false_of_ne, Bool-cases, inl, inr,
}
use module_controller.Prelude.Int.{ℤ, eqb_ℤ}
use module_controller.Go.Effect.{Result}
use module_controller.Platform.{Platform}
use module_controller.Platform.Kube.{Labels, Node, Deployment}
use module_controller.Controller.{Cluster}
use module_controller.Controller.ClusterName.{get_cluster_name_from_deployment}
use module_controller.Controller.Replicas.{update_deployment_replicas}
use module_controller.Controller.Replicas.Laws.{
  PatchLog, Sends-loop, target, wanted, patch_to, IsReadable, update_sends_wanted,
}

-- The replicas of the deployment of this name after the patches, in their order.
abbrev pub patched_replicas : List (String × ℤ) → String → Option ℤ → Option ℤ
patched_replicas [] name r = r
patched_replicas ((n, replicas) ∷ rest) name r =
    patched_replicas rest name (if n == name then some replicas else r)

abbrev pub apply_patches : List (String × ℤ) → Deployment → Deployment
apply_patches patches d = record d { replicas = patched_replicas patches d.name d.replicas }

-- No two deployments have the same name.
abbrev pub Distinct : List Deployment → Type 0
Distinct [] = Unit
Distinct (d ∷ ds) = All (λ e. d.name ≢ e.name) ds × Distinct ds

-- The patches leave the deployment of this name alone.
abbrev Spares : List (String × ℤ) → String → Type 0
Spares patches name = (r : Option ℤ) → patched_replicas patches name r ≡ r

patched_replicas-append :
    (ps qs : List (String × ℤ)) (name : String) (r : Option ℤ)
    → patched_replicas (ps ++ qs) name r ≡ patched_replicas qs name (patched_replicas ps name r)
patched_replicas-append [] qs name r = refl
patched_replicas-append (p ∷ ps) qs name r = patched_replicas-append ps qs name _

patched_replicas-some :
    (ps : List (String × ℤ)) (name : String) (n : ℤ)
    → (m : ℤ) × (patched_replicas ps name (some n) ≡ some m)
patched_replicas-some [] name n = (n, refl)
patched_replicas-some ((k, v) ∷ ps) name n = elim (Bool-cases (k == name)) [
  | inl same ↦ rw same (patched_replicas-some ps name v)
  | inr other ↦ rw other (patched_replicas-some ps name n)
]

Spares-append :
    (ps qs : List (String × ℤ)) (name : String)
    → Spares ps name
    → Spares qs name
    → Spares (ps ++ qs) name
Spares-append ps qs name h k r = patched_replicas-append ps qs name r ∙ k _ ∙ h r

Spares-patch_to :
    (other name : String) (t r : Option ℤ) → other ≢ name → Spares (patch_to other t r) name
Spares-patch_to other name none r n x = refl
Spares-patch_to other name (some v) none n x = rw (eq-false_of_ne other name n)
Spares-patch_to other name (some v) (some m) n x = elim (Bool-cases (eqb_ℤ v m)) [
  | inl equal ↦ rw equal
  | inr differs ↦ rw differs (rw (eq-false_of_ne other name n))
]

-- A patch is not wanted again.
patch_to-applied :
    (name : String) (t r : Option ℤ)
    → patch_to name t (patched_replicas (patch_to name t r) name r) ≡ []
patch_to-applied name none r = refl
patch_to-applied name (some v) none = rw (eq_refl name) (ground arith)
patch_to-applied name (some v) (some m) = elim (Bool-cases (eqb_ℤ v m)) [
  | inl equal ↦ rw equal (rw equal)
  | inr differs ↦ rw differs (rw (eq_refl name) (ground arith))
]

module _ (p : Platform) where
  cluster_name-with :
      (d : Deployment) (r : Option ℤ)
      → get_cluster_name_from_deployment p (record d { replicas = r })
        ≡ get_cluster_name_from_deployment p d
  unfolding get_cluster_name_from_deployment
  cluster_name-with d r = refl

  target-with :
      (nodes : Labels → Result (List Node)) (d : Deployment) (r : Option ℤ)
      → target p nodes (record d { replicas = r }) ≡ target p nodes d
  target-with nodes d r = rw (cluster_name-with d r)

  IsReadable-applied :
      (ps : List (String × ℤ)) (d : Deployment) → IsReadable p d → IsReadable p (apply_patches ps d)
  IsReadable-applied ps d h =
      let (n, e) = patched_replicas-some ps d.name h.count in
      record {
        count = n;
        defaulted = ap (patched_replicas ps d.name) h.defaulted ∙ e;
        cluster_name = h.cluster_name;
        named = cluster_name-with d _ ∙ h.named;
      }

  All-applied :
      (ps : List (String × ℤ)) (ds : List Deployment)
      → All (IsReadable p) ds
      → All (IsReadable p) (map (apply_patches ps) ds)
  All-applied ps [] h = tt
  All-applied ps (d ∷ ds) (h, hs) = (IsReadable-applied ps d h, All-applied ps ds hs)

  module _ (nodes : Labels → Result (List Node)) where
    -- The patches of other deployments.
    Spares-wanted :
        (name : String) (ds : List Deployment)
        → All (λ d. name ≢ d.name) ds
        → Spares (flat_map (wanted p nodes) ds) name
    Spares-wanted name [] n = λ r. refl
    Spares-wanted name (d ∷ ds) (n, ns) =
        Spares-append (wanted p nodes d) (flat_map (wanted p nodes) ds) name
          (Spares-patch_to d.name name (target p nodes d) d.replicas (λ e. n (sym e)))
          (Spares-wanted name ds ns)

    All-Spares :
        (ps : List (String × ℤ)) (d : Deployment) (ds : List Deployment)
        → All (λ e. d.name ≢ e.name) ds
        → All (λ e. Spares ps e.name) ds
        → All (λ e. Spares (ps ++ wanted p nodes d) e.name) ds
    All-Spares ps d [] n h = tt
    All-Spares ps d (e ∷ es) (n, ns) (h, hs) = (
      Spares-append ps (wanted p nodes d) e.name h
          (Spares-patch_to d.name e.name (target p nodes d) d.replicas n),
      All-Spares ps d es ns hs,
    )

    wanted-own :
        (ps qs : List (String × ℤ)) (d : Deployment)
        → Spares ps d.name
        → Spares qs d.name
        → wanted p nodes (apply_patches (ps ++ (wanted p nodes d ++ qs)) d) ≡ []
    wanted-own ps qs d h k =
        let r = d.replicas in
        let own = wanted p nodes d in
        let e : patched_replicas (ps ++ (own ++ qs)) d.name r ≡ patched_replicas own d.name r =
          patched_replicas-append ps (own ++ qs) d.name r
          ∙ ap (patched_replicas (own ++ qs) d.name) (h r)
          ∙ patched_replicas-append own qs d.name r
          ∙ k _ in
        ap (λ t. patch_to d.name t (patched_replicas (ps ++ (own ++ qs)) d.name r))
          (target-with nodes d _)
        ∙ ap (patch_to d.name (target p nodes d)) e
        ∙ patch_to-applied d.name (target p nodes d) r

    wanted-applied :
        (ps : List (String × ℤ)) (ds : List Deployment)
        → Distinct ds
        → All (λ d. Spares ps d.name) ds
        → flat_map (wanted p nodes) (map (apply_patches (ps ++ flat_map (wanted p nodes) ds)) ds)
          ≡ []
    wanted-applied ps [] u h = refl
    wanted-applied ps (d ∷ ds) (n, u) (h, hs) =
        let own = wanted p nodes d in
        let others = flat_map (wanted p nodes) ds in
        rw (wanted-own ps others d h (Spares-wanted d.name ds n)) (
          ap (λ all. flat_map (wanted p nodes) (map (apply_patches all) ds))
            (sym (append_assoc ps own others))
          ∙ wanted-applied (ps ++ own) ds u (All-Spares ps d ds n hs))

All-Spares-nothing : (ds : List Deployment) → All (λ d. Spares [] d.name) ds
All-Spares-nothing [] = tt
All-Spares-nothing (d ∷ ds) = ((λ r. refl), All-Spares-nothing ds)

module _ (p : Platform) {W : Type 0} (c : Cluster W) (log : PatchLog c) where
  update-nodes :
      (ds : List Deployment) (w : W)
      → c.get_env "ENABLE_MODULE_REPLICAS_SYNC_WITH_BASE" "false" w ≡ "true"
      → All (IsReadable p) ds
      → (l : Labels) → c.list_nodes l (update_deployment_replicas p c ds w).1 ≡ c.list_nodes l w
  unfolding update_deployment_replicas
  update-nodes ds w e h l = rw ((eq_iff _ _).1 e) ((Sends-loop p c log ds w h).nodes l)

  -- One round sends some patches, and a second round, over the deployments with those patches applied
  -- in their order, sends nothing: the loop settles after one round. The switch must be on in both
  -- rounds, the deployments must have different names, their replicas defaulted and a readable
  -- cluster name, and the nodes change by nothing but the rounds.
  pub update_settles :
      (ds : List Deployment) (w : W)
      → c.get_env "ENABLE_MODULE_REPLICAS_SYNC_WITH_BASE" "false" w ≡ "true"
      → c.get_env "ENABLE_MODULE_REPLICAS_SYNC_WITH_BASE" "false"
          (update_deployment_replicas p c ds w).1
        ≡ "true"
      → All (IsReadable p) ds
      → Distinct ds
      → let w' = (update_deployment_replicas p c ds w).1 in
        (sent : List (String × ℤ)) × (log.patched w' ≡ log.patched w ++ sent)
        × (log.patched (update_deployment_replicas p c (map (apply_patches sent) ds) w').1
            ≡ log.patched w')
  update_settles ds w e e' h u =
      let nodes = λ (l : Labels). c.list_nodes l w in
      let sent = flat_map (wanted p nodes) ds in
      let w' = (update_deployment_replicas p c ds w).1 in
      let same : (λ l. c.list_nodes l w') ≡ nodes = fun_ext (update-nodes ds w e h) in
      (
        sent,
        (update_sends_wanted p c log ds w e h).1,
        (update_sends_wanted p c log _ w' e' (All-applied p sent ds h)).1
            ∙ ap (λ f. log.patched w' ++ flat_map (wanted p f) (map (apply_patches sent) ds)) same
            ∙ ap (λ t. log.patched w' ++ t) (wanted-applied p nodes [] ds u (All-Spares-nothing ds))
            ∙ append-nil (log.patched w'),
      )
