-- ===== src/Controller.antt =====
-- controller/module_deployment_controller: the replicas of module deployments follow the number of
-- ready nodes of their cluster, and a base can ask for its baseline of containers. Here is what the
-- controller calls; the children are its operations and their properties.
pub mod ClusterName
pub mod ReadyNodes
pub mod Replicas
pub mod Handlers
pub mod Baseline
pub mod Predicates
pub mod UpdateToken
pub mod Setup
pub mod InsertionSort
mod Tests
use module_controller.Prelude.{String, Option, List}
use module_controller.Prelude.Int.{ℤ}
use module_controller.Go.Effect.{Error, Result}
use module_controller.Platform.Kube.{Labels, Node, Deployment}

-- The manager's cache and client, the tracker of virtual-kubelet and the environment variables, on
-- the state `W` of everything outside.
pub record Cluster (W : Type 0) : Type 0 where
  -- cache.List of the nodes, and of the deployments, with these labels
  pub list_nodes : Labels → W → Result (List Node)
  pub list_deployments : Labels → W → Result (List Deployment)
  -- client.Patch of a deployment's spec.replicas
  pub patch_replicas : Deployment → ℤ → W → Option Error × W
  -- tracker.FuncTrack, for a trace ID and labels; the closure returns its error and an error code
  pub func_track : String → Labels → (W → (Option Error × String) × W) → W → Option Error × W
  -- virtual-kubelet's utils.GetEnv, with its default
  pub get_env : String → String → W → String
