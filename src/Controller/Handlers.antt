-- ===== src/Controller/Handlers.antt =====
-- The event handlers that SetupWithManager registers, and the deployments of a node's cluster. The
-- pointers of the events are never nil.
pub mod Laws
use module_controller.Prelude.{
  String, Bool, ◌&&◌, not, Option, none, some, List, [], ◌∷◌, ◌==◌, if◌then◌else◌,
}
use module_controller.Go.Effect.{Result, ok, err, Go, returns, pure, lift, ◌>>=◌}
use module_controller.Platform.{Platform}
use module_controller.Platform.Kube.{Labels, Node, Deployment}
use module_controller.Model.{
  label_key_of_vpod_deployment_strategy, vpod_deployment_strategy_peer, component_module_deployment,
}
use module_controller.Controller.{Cluster}
use module_controller.Controller.ClusterName.{
  get_cluster_name_from_deployment, get_cluster_name_from_node,
}
use module_controller.Controller.Replicas.{update_deployment_replicas}
use module_controller.Controller.Predicates.{
  Event, created, updated, deleted, generic, vnode_predicates, module_deployment_predicates,
}

module _ (p : Platform) {W : Type 0} (c : Cluster W) where
  -- The loop over the listed deployments.
  matching_deployments : String → List Deployment → Go W (List Deployment)
  matching_deployments cluster_name [] = pure []
  matching_deployments cluster_name (d ∷ rest) = do
    name ← lift (get_cluster_name_from_deployment p d)
    matched ← matching_deployments cluster_name rest
    pure (if cluster_name == name && not (name == "") then d ∷ matched else matched)

  related_among : String → Result (List Deployment) → Go W (List Deployment)
  unfolding matching_deployments
  related_among cluster_name (err e) = pure []
  related_among cluster_name (ok deployments) = matching_deployments cluster_name deployments

  unfoldable pub get_related_deployments_by_node : Node → Go W (List Deployment)
  unfolding related_among get_cluster_name_from_node
  get_related_deployments_by_node node w =
      let cluster_name = get_cluster_name_from_node p node in
      if cluster_name == ""
      then (returns [], w)
      else related_among cluster_name
          (c.list_deployments
            ((label_key_of_vpod_deployment_strategy, vpod_deployment_strategy_peer) ∷ []) w)
          w

  unfoldable pub vnode_create_handler : Node → Go W Unit
  vnode_create_handler node = do
    related ← get_related_deployments_by_node node
    update_deployment_replicas p c related

  unfoldable pub vnode_update_handler : Node → Node → Go W Unit
  vnode_update_handler old node = do
    related ← get_related_deployments_by_node node
    update_deployment_replicas p c related

  unfoldable pub vnode_delete_handler : Node → Go W Unit
  vnode_delete_handler node = do
    related ← get_related_deployments_by_node node
    update_deployment_replicas p c related

  unfoldable pub deployment_add_handler : Option Deployment → Go W Unit
  deployment_add_handler none = pure tt
  deployment_add_handler (some d) = update_deployment_replicas p c (d ∷ [])

  unfoldable pub deployment_update_handler : Option Deployment → Option Deployment → Go W Unit
  deployment_update_handler old none = pure tt
  deployment_update_handler old (some d) = update_deployment_replicas p c (d ∷ [])

  -- vnodeEventHandler and deploymentEventHandler; the generic ones only log.
  vnode_event_handler : Event Node → Go W Unit
  unfolding vnode_create_handler vnode_update_handler vnode_delete_handler
  vnode_event_handler (created n) = vnode_create_handler n
  vnode_event_handler (updated old n) = vnode_update_handler old n
  vnode_event_handler (deleted n) = vnode_delete_handler n
  vnode_event_handler (generic n) = pure tt

  deployment_event_handler : Event Deployment → Go W Unit
  unfolding deployment_add_handler deployment_update_handler
  deployment_event_handler (created d) = deployment_add_handler (some d)
  deployment_event_handler (updated old d) = deployment_update_handler (some old) (some d)
  deployment_event_handler (deleted d) = pure tt
  deployment_event_handler (generic d) = pure tt

  -- The watches: an event reaches its handler if the predicate lets it through.
  unfoldable pub on_vnode_event : (Labels → Bool) → Event Node → Go W Unit
  unfolding vnode_event_handler vnode_predicates
  on_vnode_event matches e w =
      if vnode_predicates matches e then vnode_event_handler e w else (returns tt, w)

  unfoldable pub on_deployment_event : (Labels → Bool) → Event Deployment → Go W Unit
  unfolding deployment_event_handler module_deployment_predicates
  on_deployment_event matches e w =
      if module_deployment_predicates matches e
      then deployment_event_handler e w
      else (returns tt, w)

  abbrev list_then_update : Result (List Deployment) → Go W Unit
  list_then_update (err e) = pure tt
  list_then_update (ok deployments) = update_deployment_replicas p c deployments

  abbrev after_nodes : String → Result (List Node) → Go W Unit
  after_nodes env (err e) w = (returns tt, w)
  after_nodes env (ok nodes) w =
      list_then_update
        (c.list_deployments
          ((p.label_key_of_component, component_module_deployment) ∷ (p.label_key_of_env, env) ∷ [])
          w)
        w

  -- The goroutine of SetupWithManager; `synced` is the answer of WaitForCacheSync.
  unfoldable pub initial_sync : String → Bool → Go W Unit
  initial_sync env synced w =
      if synced
      then after_nodes env
          (c.list_nodes
            ((p.label_key_of_component, p.component_vnode) ∷ (p.label_key_of_env, env) ∷ []) w)
          w
      else (returns tt, w)
