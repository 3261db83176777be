-- ===== src/Controller/Predicates.antt =====
-- predicates.go: which events of nodes and deployments reach the handlers. `matches` is
-- LabelSelector.Matches of the selector that SetupWithManager builds, on an object's labels.
use module_controller.Prelude.{Bool, false}
use module_controller.Platform.Kube.{Labels, Node, Deployment}

-- A typed event of controller-runtime; an update has the old and the new object.
pub data Event {ℓ} (A : Type ℓ) : Type ℓ where
  created : A → Event A
  updated : A → A → Event A
  deleted : A → Event A
  generic : A → Event A

unfoldable pub vnode_predicates : (Labels → Bool) → Event Node → Bool
vnode_predicates matches (created n) = matches n.labels
vnode_predicates matches (updated old n) = matches n.labels
vnode_predicates matches (deleted n) = matches n.labels
vnode_predicates matches (generic n) = false

unfoldable pub module_deployment_predicates : (Labels → Bool) → Event Deployment → Bool
module_deployment_predicates matches (created d) = matches d.labels
module_deployment_predicates matches (updated old d) = matches d.labels
module_deployment_predicates matches (deleted d) = matches d.labels
module_deployment_predicates matches (generic d) = matches d.labels
