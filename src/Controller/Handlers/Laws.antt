-- ===== src/Controller/Handlers/Laws.antt =====
-- What the handlers do with an event.
use mathlib.Core.List.{append-nil}
use module_controller.Prelude.{
  String, Bool, true, false, ◌&&◌, not, ◌≡◌, ◌≢◌, ◌∙◌, refl, sym, ap, arith, List, [], ◌∷◌, ◌++◌,
  ◌==◌, All, filter, flat_map, eq-false_of_ne,
}
use module_controller.Prelude.Int.{ℤ}
use module_controller.Go.Effect.{Outcome, returns, panics, Result, ok, ◌>>=◌}
use module_controller.Platform.{Platform}
use module_controller.Platform.Kube.{Labels, Node, Deployment}
use module_controller.Model.{label_key_of_vpod_deployment_strategy, vpod_deployment_strategy_peer}
use module_controller.Controller.{Cluster}
use module_controller.Controller.ClusterName.{
  get_cluster_name_from_deployment, get_cluster_name_from_node,
}
use module_controller.Controller.Replicas.{update_deployment_replicas}
use module_controller.Controller.Replicas.Laws.{PatchLog, IsReadable, wanted, update_sends_wanted}
use module_controller.Controller.Predicates.{
  Event, created, updated, deleted, generic, vnode_predicates, module_deployment_predicates,
}
use module_controller.Controller.Handlers.{
  matching_deployments, get_related_deployments_by_node, on_vnode_event, on_deployment_event,
}

-- The object that an event is about: the new one of an update.
abbrev pub subject {ℓ} : {A : Type ℓ} → Event A → A
subject (created a) = a
subject (updated old a) = a
subject (deleted a) = a
subject (generic a) = a

-- The cluster name was read and is this one.
abbrev pub is_named : String → Outcome String → Bool
is_named cluster_name panics = false
is_named cluster_name (returns name) = cluster_name == name && not (name == "")

module _ (p : Platform) where
  abbrev pub in_cluster : String → Deployment → Bool
  in_cluster cluster_name d = is_named cluster_name (get_cluster_name_from_deployment p d)

module _ (p : Platform) {W : Type 0} (c : Cluster W) where
  matching_deployments-eq :
      (cluster_name : String) (ds : List Deployment) (w : W)
      → All (IsReadable p) ds
      → matching_deployments p c cluster_name ds w
        ≡ (returns (filter (in_cluster p cluster_name) ds), w)
  unfolding matching_deployments
  matching_deployments-eq cluster_name [] w h = refl
  matching_deployments-eq cluster_name (d ∷ ds) w (h, hs) =
      rw (h.named) (rw (matching_deployments-eq cluster_name ds w hs))

  -- The deployments related to a node are, in the order of the list, those of the peer strategy that
  -- name the node's cluster. The node must name a cluster, the list must succeed, and the listed
  -- deployments must have a readable cluster name.
  pub related_deployments-eq-filter :
      (node : Node) (ds : List Deployment) (w : W)
      → get_cluster_name_from_node p node ≢ ""
      → c.list_deployments
          ((label_key_of_vpod_deployment_strategy, vpod_deployment_strategy_peer) ∷ [])
          w
        ≡ ok ds
      → All (IsReadable p) ds
      → get_related_deployments_by_node p c node w
        ≡ (returns (filter (in_cluster p (get_cluster_name_from_node p node)) ds), w)
  unfolding get_related_deployments_by_node
  related_deployments-eq-filter node ds w n l h =
      rw (eq-false_of_ne _ _ n)
        (rw l (matching_deployments-eq (get_cluster_name_from_node p node) ds w h))

All-filter {ℓ} :
    {A : Type ℓ} (P : A → Type 0) (q : A → Bool) (xs : List A) → All P xs → All P (filter q xs)
All-filter P q [] h = tt
All-filter P q (x ∷ xs) (h, hs) = ground (arith, All-filter P q xs hs)

module _ (p : Platform) {W : Type 0} (c : Cluster W) (log : PatchLog c) where
  related_sends :
      (n : Node) (ds : List Deployment) (w : W)
      → c.get_env "ENABLE_MODULE_REPLICAS_SYNC_WITH_BASE" "false" w ≡ "true"
      → get_cluster_name_from_node p n ≢ ""
      → c.list_deployments
          ((label_key_of_vpod_deployment_strategy, vpod_deployment_strategy_peer) ∷ [])
          w
        ≡ ok ds
      → All (IsReadable p) ds
      → log.patched ((get_related_deployments_by_node p c n >>= update_deployment_replicas p c) w).1
        ≡ log.patched w
          ++ flat_map
              (wanted p (λ l. c.list_nodes l w))
              (filter (in_cluster p (get_cluster_name_from_node p n)) ds)
  related_sends n ds w e k l h =
      let q = in_cluster p (get_cluster_name_from_node p n) in
      rw (related_deployments-eq-filter p c n ds w k l h)
        (update_sends_wanted p c log (filter q ds) w e (All-filter (IsReadable p) q ds h)).1

  deployment_sends :
      (d : Deployment) (w : W)
      → c.get_env "ENABLE_MODULE_REPLICAS_SYNC_WITH_BASE" "false" w ≡ "true"
      → IsReadable p d
      → log.patched (update_deployment_replicas p c (d ∷ []) w).1
        ≡ log.patched w ++ wanted p (λ l. c.list_nodes l w) d
  deployment_sends d w e h =
      (update_sends_wanted p c log (d ∷ []) w e (h, tt)).1
      ∙ ap (λ t. log.patched w ++ t) (append-nil _)

  -- A node event that passes the predicate makes the controller send the patches that the
  -- deployments of the node's cluster want, and no other, whether the node was created, updated or
  -- deleted. The switch must be on, the node must name a cluster, the list must succeed, and the
  -- listed deployments must be readable.
  pub vnode_event_sends :
      (matches : Labels → Bool) (e : Event Node) (ds : List Deployment) (w : W)
      → vnode_predicates matches e ≡ true
      → c.get_env "ENABLE_MODULE_REPLICAS_SYNC_WITH_BASE" "false" w ≡ "true"
      → get_cluster_name_from_node p (subject e) ≢ ""
      → c.list_deployments
          ((label_key_of_vpod_deployment_strategy, vpod_deployment_strategy_peer) ∷ [])
          w
        ≡ ok ds
      → All (IsReadable p) ds
      → log.patched (on_vnode_event p c matches e w).1
        ≡ log.patched w
          ++ flat_map
              (wanted p (λ l. c.list_nodes l w))
              (filter (in_cluster p (get_cluster_name_from_node p (subject e))) ds)
  unfolding on_vnode_event vnode_predicates
  vnode_event_sends matches (created n) ds w m e k l h = rw m (related_sends n ds w e k l h)
  vnode_event_sends matches (updated old n) ds w m e k l h = rw m (related_sends n ds w e k l h)
  vnode_event_sends matches (deleted n) ds w m e k l h = rw m (related_sends n ds w e k l h)
  vnode_event_sends matches (generic n) ds w m e k l h = cc

  -- The patches that a deployment event calls for: a deletion and a generic event call for none.
  abbrev pub sent_for : (Labels → Result (List Node)) → Event Deployment → List (String × ℤ)
  sent_for nodes (created d) = wanted p nodes d
  sent_for nodes (updated old d) = wanted p nodes d
  sent_for nodes (deleted d) = []
  sent_for nodes (generic d) = []

  -- A deployment event that passes the predicate sends the patch that the new deployment wants if it
  -- is a creation or an update, and nothing if it is a deletion or a generic event. The switch must
  -- be on and the deployment readable.
  pub deployment_event_sends :
      (matches : Labels → Bool) (e : Event Deployment) (w : W)
      → module_deployment_predicates matches e ≡ true
      → c.get_env "ENABLE_MODULE_REPLICAS_SYNC_WITH_BASE" "false" w ≡ "true"
      → IsReadable p (subject e)
      → log.patched (on_deployment_event p c matches e w).1
        ≡ log.patched w ++ sent_for (λ l. c.list_nodes l w) e
  unfolding on_deployment_event module_deployment_predicates
  deployment_event_sends matches (created d) w m e h = rw m (deployment_sends d w e h)
  deployment_event_sends matches (updated old d) w m e h = rw m (deployment_sends d w e h)
  deployment_event_sends matches (deleted d) w m e h = rw m (sym (append-nil _))
  deployment_event_sends matches (generic d) w m e h = rw m (sym (append-nil _))
