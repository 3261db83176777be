-- ===== src/Controller/Replicas/Laws.antt =====
-- What one run of the update loop sends to the API server.
use mathlib.Core.Path.{fun_ext, subst}
use mathlib.Core.List.{append-nil, append_assoc}
use module_controller.Prelude.{
  ℕ, String, ◌≡◌, eq_iff, ◌∙◌, refl, sym, ap, Option, none, some, List, [], ◌∷◌, ◌++◌, ◌==◌,
  if◌then◌else◌, All, flat_map, index, Bool-cases, inl, inr,
}
use module_controller.Prelude.Int.{ℤ, pos, int32, eqb_ℤ}
use module_controller.Go.Effect.{
  Error, Outcome, returns, panics, Result, ok, err, for_each, Go, go_on,
}
use module_controller.Platform.{Platform}
use module_controller.Platform.Kube.{Labels, Node, Deployment}
use module_controller.Controller.{Cluster}
use module_controller.Controller.ClusterName.{get_cluster_name_from_deployment}
use module_controller.Controller.ReadyNodes.{ready_of_listed, ready_node_count}
use module_controller.Controller.Replicas.{
  is_controlled, sync_deployment, update_deployment_replicas, sync_with_count, update_unless_equal,
  update_deployment_replicas_of_kubernetes, sync_in_cluster,
}

-- What the controller relies on of the client, the cache and the tracker: a patch is sent once, the
-- tracker runs its closure once and sends none itself, and neither changes the cached nodes.
pub record PatchLog {W : Type 0} (c : Cluster W) : Type 0 where
  -- the patches sent so far: the deployment's name and its new replicas
  pub patched : W → List (String × ℤ)
  pub patch_sends :
      (d : Deployment) (n : ℤ) (w : W)
      → patched (c.patch_replicas d n w).1 ≡ patched w ++ (d.name, n) ∷ []
  pub track_runs :
      (t : String) (l : Labels) (f : W → (Option Error × String) × W) (w : W)
      → patched (c.func_track t l f w).1 ≡ patched (f w).1
  pub patch_keeps_nodes :
      (d : Deployment) (n : ℤ) (w : W) (l : Labels)
      → c.list_nodes l (c.patch_replicas d n w).1 ≡ c.list_nodes l w
  pub track_keeps_nodes :
      (t : String) (l : Labels) (f : W → (Option Error × String) × W) (w : W) (k : Labels)
      → c.list_nodes k (c.func_track t l f w).1 ≡ c.list_nodes k (f w).1

-- The replicas are of 32 bits; without a count there is no target.
abbrev pub count_target : Result ℕ → Option ℤ
count_target (err e) = none
count_target (ok count) = some (int32 (pos count))

-- The patch for a deployment: none if it has its replicas already.
abbrev pub patch_to : String → Option ℤ → Option ℤ → List (String × ℤ)
patch_to name none replicas = []
patch_to name (some n) none = (name, n) ∷ []
patch_to name (some n) (some replicas) = if eqb_ℤ n replicas then [] else (name, n) ∷ []

module _ (p : Platform) where
  -- The replicas that a deployment should have, where the controller sets them: it is controlled, it
  -- names a cluster, and the cluster's nodes could be listed.
  abbrev pub target_in : (Labels → Result (List Node)) → Outcome String → Option ℤ
  target_in nodes panics = none
  target_in nodes (returns cluster_name) =
      if cluster_name == ""
      then none
      else count_target
          (ready_of_listed p (nodes ((p.label_key_of_base_cluster_name, cluster_name) ∷ [])))

  abbrev pub target : (Labels → Result (List Node)) → Deployment → Option ℤ
  target nodes d =
      if is_controlled d then target_in nodes (get_cluster_name_from_deployment p d) else none

  abbrev pub wanted : (Labels → Result (List Node)) → Deployment → List (String × ℤ)
  wanted nodes d = patch_to d.name (target nodes d) d.replicas

  -- The API server defaults the replicas, and the cluster name can be read.
  pub record IsReadable (d : Deployment) : Type 0 where
    pub count : ℤ
    pub defaulted : d.replicas ≡ some count
    pub cluster_name : String
    pub named : get_cluster_name_from_deployment p d ≡ returns cluster_name

module _ (p : Platform) {W : Type 0} (c : Cluster W) (log : PatchLog c) where
  -- One part of the loop's body ends normally, sends `sent`, and leaves the cached nodes.
  pub record Sends (sent : List (String × ℤ)) (w : W) (r : Outcome (Unit {0}) × W) : Type 0 where
    pub returned : r.0 ≡ returns tt
    pub sends : log.patched r.1 ≡ log.patched w ++ sent
    pub nodes : (l : Labels) → c.list_nodes l r.1 ≡ c.list_nodes l w

  Sends-nothing : (w : W) → Sends [] w (returns tt, w)
  Sends-nothing w = record { returned = refl; sends = sym (append-nil _); nodes = λ l. refl }

  Sends-update :
      (d : Deployment) (count : ℕ) (n : ℤ) (w : W)
      → Sends
          (patch_to d.name (some (int32 (pos count))) (some n))
          w
          (update_unless_equal p c d count (some n) w)
  unfolding update_unless_equal
  Sends-update d count n w = elim (Bool-cases (eqb_ℤ (int32 (pos count)) n)) [
    | inl equal ↦ rw equal (Sends-nothing w)
    | inr differs ↦ rw differs (record {
      returned = refl;
      sends = log.track_runs _ _ _ w ∙ log.patch_sends d (int32 (pos count)) w;
      nodes = λ l. log_nodes l;
    })
  ]
    where
      log_nodes :
          (l : Labels)
          → c.list_nodes l
              (c.func_track
                (index p.label_key_of_trace_id d.labels)
                d.labels
                (update_deployment_replicas_of_kubernetes p c count d)
                w).1
            ≡ c.list_nodes l w
      log_nodes l =
          log.track_keeps_nodes _ _ _ w l ∙ log.patch_keeps_nodes d (int32 (pos count)) w l

  Sends-count :
      (d : Deployment) (n : ℤ) (w : W) (counted : Result ℕ)
      → d.replicas ≡ some n
      → Sends (patch_to d.name (count_target counted) (some n)) w (sync_with_count p c d counted w)
  unfolding sync_with_count
  Sends-count d n w (err e) h = Sends-nothing w
  Sends-count d n w (ok count) h =
      subst
        (λ r.
          Sends (patch_to d.name (some (int32 (pos count))) (some n)) w
            (update_unless_equal p c d count r w))
        (sym h) (Sends-update d count n w)

  Sends-in_cluster :
      (d : Deployment) (name : String) (n : ℤ) (w : W)
      → d.replicas ≡ some n
      → Sends
          (patch_to d.name (target_in p (λ l. c.list_nodes l w) (returns name)) (some n))
          w
          (sync_in_cluster p c d name w)
  unfolding sync_in_cluster
  Sends-in_cluster d name n w h = elim (Bool-cases (name == "")) [
    | inl unnamed ↦ rw unnamed (Sends-nothing w)
    | inr named ↦ rw named (rw (ready_node_count p c name w) (Sends-count d n w _ h))
  ]

  Sends-named :
      (d : Deployment) (w : W)
      → IsReadable p d
      → (n : ℤ) → d.replicas ≡ some n
      → Sends
          (patch_to d.name (target p (λ l. c.list_nodes l w) d) (some n))
          w
          (sync_deployment p c d w)
  unfolding sync_deployment
  Sends-named d w h n e = elim (Bool-cases (is_controlled d)) [
    | inl controlled ↦ rw (h.named, controlled) (Sends-in_cluster d h.cluster_name n w e)
    | inr other ↦ rw other (Sends-nothing w)
  ]

  Sends-deployment :
      (d : Deployment) (w : W)
      → IsReadable p d
      → Sends (wanted p (λ l. c.list_nodes l w) d) w (sync_deployment p c d w)
  Sends-deployment d w h =
      subst
        (λ r.
          Sends (patch_to d.name (target p (λ l. c.list_nodes l w) d) r) w
            (sync_deployment p c d w))
        (sym h.defaulted) (Sends-named d w h h.count h.defaulted)

  Sends-then :
      (sent more : List (String × ℤ)) (w : W) (r : Outcome (Unit {0}) × W) (rest : Go W Unit)
      → Sends sent w r
      → Sends more r.1 (rest r.1)
      → Sends (sent ++ more) w (go_on r.0 (λ _. rest) r.1)
  Sends-then sent more w (returns u, w') rest f g = record {
    returned = g.returned;
    sends = g.sends ∙ ap (λ t. t ++ more) f.sends ∙ append_assoc (log.patched w) sent more;
    nodes = λ l. g.nodes l ∙ f.nodes l;
  }
  Sends-then sent more w (panics, w') rest f g = cc f.returned

  pub Sends-loop :
      (ds : List Deployment) (w : W)
      → All (IsReadable p) ds
      → Sends
          (flat_map (wanted p (λ l. c.list_nodes l w)) ds)
          w
          (for_each (sync_deployment p c) ds w)
  unfolding for_each
  Sends-loop [] w h = Sends-nothing w
  Sends-loop (d ∷ ds) w (h, hs) =
      let first = Sends-deployment d w h in
      Sends-then _ _ w (sync_deployment p c d w) (for_each (sync_deployment p c) ds) first (
        subst
          (λ f.
            Sends (flat_map (wanted p f) ds) (sync_deployment p c d w).1
              (for_each (sync_deployment p c) ds (sync_deployment p c d w).1))
          (fun_ext first.nodes) (Sends-loop ds (sync_deployment p c d w).1 hs))

  -- With the switch on, the loop ends normally and sends, in the order of the deployments, exactly
  -- the patch that each wants: for a controlled deployment of a named cluster whose nodes can be
  -- listed, the number of ready nodes (as a 32-bit integer), unless it has that many replicas. The
  -- deployments must have their replicas defaulted and a readable cluster name.
  pub update_sends_wanted :
      (ds : List Deployment) (w : W)
      → c.get_env "ENABLE_MODULE_REPLICAS_SYNC_WITH_BASE" "false" w ≡ "true"
      → All (IsReadable p) ds
      → ((update_deployment_replicas p c ds w).0 ≡ returns tt)
        × (log.patched (update_deployment_replicas p c ds w).1
            ≡ log.patched w ++ flat_map (wanted p (λ l. c.list_nodes l w)) ds)
  unfolding update_deployment_replicas
  update_sends_wanted ds w e h =
      let on = (eq_iff _ _).1 e in
      let sent = Sends-loop ds w h in (rw on sent.returned, rw on sent.sends)
