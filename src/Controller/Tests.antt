-- ===== src/Controller/Tests.antt =====
-- Runs of the module deployment controller on concrete objects.
use module_controller.Prelude.{
  eq_iff, ◌≡◌, String, List, ◌≢◌, refl, arith, true, some, [], ◌∷◌, ◌++◌, lookup, flat_map, filter,
  map, index, ◌≤◌,
}
use module_controller.Prelude.Int.{ℤ, pos, int32}
use module_controller.Go.Effect.{returns, for_each}
use module_controller.Platform.Kube.{Deployment, NodeSelectorRequirement}
use module_controller.Samples.{platform, cluster, log, deployment, node, deployment-IsReadable}
use module_controller.Controller.ClusterName.{
  get_cluster_name_from_deployment, get_cluster_name_from_node, cluster_name_of_deployment,
  named_by, selector_cluster, cluster_requirements,
}
use module_controller.Controller.ReadyNodes.{
  get_ready_node_count, ready_of_listed, ready_node_count,
}
use module_controller.Controller.Replicas.{update_deployment_replicas}
use module_controller.Controller.Replicas.Laws.{wanted, update_sends_wanted}
use module_controller.Controller.Replicas.Settling.{apply_patches, update_settles}
use module_controller.Controller.Predicates.{
  vnode_predicates, module_deployment_predicates, updated, deleted,
}
use module_controller.Controller.Handlers.{on_vnode_event, on_deployment_event}
use module_controller.Controller.Handlers.Laws.{
  in_cluster, vnode_event_sends, deployment_event_sends,
}
use module_controller.Controller.UpdateToken.{
  Reach, start, next, set_up, arrive, take, running, count_running, at_most_one_running, Updaters,
}
use module_controller.Prelude.{none, false, List}
use module_controller.Controller.UpdateToken.{new_controller}
use module_controller.Controller.Setup.{Kind, Runtime, Setup}

node_names_cluster : get_cluster_name_from_node platform node ≢ ""
unfolding get_cluster_name_from_node lookup
node_names_cluster = λ e. ground (arith, (eq_iff "cluster1" "").1 e)

update_sends_wanted_example :
    ((update_deployment_replicas platform (cluster "true") (deployment ∷ []) []).0 ≡ returns tt)
    × ((update_deployment_replicas platform (cluster "true") (deployment ∷ []) []).1
        ≡ []
          ++ flat_map (wanted platform (λ l. (cluster "true").list_nodes l [])) (deployment ∷ []))
update_sends_wanted_example =
    update_sends_wanted platform (cluster "true") (log "true") (deployment ∷ []) [] refl
      (deployment-IsReadable, tt)

update_settles_example :
    let w' = (update_deployment_replicas platform (cluster "true") (deployment ∷ []) []).1 in
    (sent : List (String × ℤ)) × (w' ≡ [] ++ sent)
    × ((update_deployment_replicas platform
          (cluster "true")
          (map (apply_patches sent) (deployment ∷ []))
          w').1
        ≡ w')
update_settles_example =
    update_settles platform (cluster "true") (log "true") (deployment ∷ []) [] refl refl
      (deployment-IsReadable, tt) (tt, tt)

-- One patch is sent: the one ready node.
patch_sent :
    (update_deployment_replicas platform (cluster "true") (deployment ∷ []) []).1
    ≡ ("biz1", pos 1) ∷ []
unfolding update_deployment_replicas lookup index get_ready_node_count int32 for_each
    get_cluster_name_from_deployment
patch_sent = refl

cluster_name_of_deployment_example :
    get_cluster_name_from_deployment platform deployment
    ≡ named_by platform
        (lookup "base.koupleless.io/cluster-name" deployment.labels)
        (selector_cluster platform deployment.node_selector)
        (cluster_requirements platform deployment)
cluster_name_of_deployment_example = cluster_name_of_deployment platform deployment

abbrev requires_cluster : NodeSelectorRequirement
requires_cluster = record { key = "base.koupleless.io/cluster-name"; values = [] }

abbrev exists_deployment : Deployment
exists_deployment = record deployment {
  labels = [];
  affinity = some (record {
    node_affinity = some (record {
      required_during_scheduling = some (record {
        node_selector_terms = record { match_expressions = requires_cluster ∷ [] } ∷ [];
      });
    });
  });
}

ready_node_count_example :
    get_ready_node_count platform (cluster "true") "cluster1" []
    ≡ ready_of_listed platform
        ((cluster "true").list_nodes (("base.koupleless.io/cluster-name", "cluster1") ∷ []) [])
ready_node_count_example = ready_node_count platform (cluster "true") "cluster1" []

vnode_event_sends_example :
    (on_vnode_event platform (cluster "true") (λ l. true) (deleted node) []).1
    ≡ []
      ++ flat_map (wanted platform (λ l. (cluster "true").list_nodes l [])) (
          filter (in_cluster platform (get_cluster_name_from_node platform node)) (deployment ∷ []))
unfolding vnode_predicates
vnode_event_sends_example =
    vnode_event_sends platform (cluster "true") (log "true") (λ l. true) (deleted node)
      (deployment ∷ []) [] refl refl node_names_cluster refl (deployment-IsReadable, tt)

deployment_event_sends_example :
    (on_deployment_event platform (cluster "true") (λ l. true) (updated deployment deployment) []).1
    ≡ [] ++ wanted platform (λ l. (cluster "true").list_nodes l []) deployment
unfolding module_deployment_predicates
deployment_event_sends_example =
    deployment_event_sends platform (cluster "true") (log "true") (λ l. true)
      (updated deployment deployment) [] refl refl deployment-IsReadable

abbrev one_running : Updaters
one_running = record { tokens = 0; is_set_up = true; phases = running ∷ [] }

one_runs : Reach one_running
one_runs =
    next (next (next start (set_up _ refl (ground arith))) (arrive _))
      (take _ [] [] refl (ground arith))

at_most_one_running_example : count_running one_running.phases ≤ 1
at_most_one_running_example = at_most_one_running one_running one_runs

-- A runtime that logs what it is asked for.
abbrev runtime : Runtime (List Kind)
runtime = record { new = λ name w. (none, w); watch = λ kind labels w. (none, kind ∷ w) }

abbrev fresh : Setup (List Kind)
fresh = record {
  env = "test";
  updaters = new_controller;
  has_client = false;
  started = 0;
  world = [];
}
