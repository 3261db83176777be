-- ===== src/KubeletProxy/Laws.antt =====
-- Which pod's logs are served, and what a client is told when there is none.
use module_controller.Prelude.{
  String, ◌≡◌, ◌≢◌, ◌∙◌, refl, ap, ◌==◌, index, if◌then◌else◌, eq-false_of_ne, eq_iff,
}
use module_controller.Go.Effect.{not_found, errdefs_not_found, ok, err}
use module_controller.Platform.{Platform}
use module_controller.Platform.Kube.{Pod, Node}
use module_controller.KubeletProxy.{
  ContainerLogOpts, PodLogOptions, PodHandler, base_pod_name, after_node, after_pod, after_lookup,
  lookup_base_pod, log_options, get_container_logs,
}

module _ (p : Platform) {W S : Type 0} (f : PodHandler W S) where
  -- virtual-kubelet's OrElse takes its second argument for an empty first one.
  pub record IsOrElse : Type 0 where
    pub chosen : (s t : String) → f.client_set.or_else s t ≡ (if s == "" then t else s)

  -- The virtual pod and its node, as the API server gives them, with the world after both requests.
  pub record Scheduled (namespace name : String) (w : W) : Type 0 where
    pub vpod : Pod
    pub vnode : Node
    pub between : W
    pub after : W
    pub pod_found : f.client_set.get_pod namespace name w ≡ (ok vpod, between)
    pub node_found : f.client_set.get_node vpod.node_name between ≡ (ok vnode, after)

  -- The ways in which there is no base pod, with the text of the error and the world after it.
  pub data Missing (namespace name : String) (w : W) : String → W → Type 0 where
    no_pod :
        (s : String) (w' : W)
        → f.client_set.get_pod namespace name w ≡ (err (not_found s), w')
        → Missing namespace name w (f.client_set.not_found_text "pods" name) w'
    no_node :
        (s : String) (vpod : Pod) (w' w'' : W)
        → f.client_set.get_pod namespace name w ≡ (ok vpod, w')
        → f.client_set.get_node vpod.node_name w' ≡ (err (not_found s), w'')
        → Missing namespace name w (f.client_set.not_found_text "nodes" vpod.node_name) w''
    unnamed :
        (s : Scheduled namespace name w)
        → base_pod_name p f s.vnode ≡ ""
        → Missing namespace name w (f.client_set.not_found_text "pods" name) s.after
    no_base :
        (s : Scheduled namespace name w) (text : String) (w' : W)
        → base_pod_name p f s.vnode ≢ ""
        → f.client_set.get_pod namespace (base_pod_name p f s.vnode) s.after
          ≡ (err (not_found text), w')
        → Missing namespace name w text w'

  -- The lookup once the pod and the node are found.
  scheduled-lookup :
      (namespace name : String) (w : W) (s : Scheduled namespace name w)
      → lookup_base_pod p f namespace name w ≡ (
          if base_pod_name p f s.vnode == ""
          then (err (not_found (f.client_set.not_found_text "pods" name)), s.after)
          else f.client_set.get_pod namespace (base_pod_name p f s.vnode) s.after)
  unfolding lookup_base_pod after_pod after_node
  scheduled-lookup namespace name w s =
      ap (after_pod p f namespace name) s.pod_found
      ∙ ap (after_node p f namespace name s.vpod.node_name) s.node_found

  named-lookup :
      (namespace name : String) (w : W) (s : Scheduled namespace name w)
      → base_pod_name p f s.vnode ≢ ""
      → lookup_base_pod p f namespace name w
        ≡ f.client_set.get_pod namespace (base_pod_name p f s.vnode) s.after
  named-lookup namespace name w s n =
      scheduled-lookup namespace name w s ∙ rw (eq-false_of_ne _ _ n) refl

  lookup-Missing :
      (namespace name : String) (w : W) (text : String) (w' : W)
      → Missing namespace name w text w'
      → lookup_base_pod p f namespace name w ≡ (err (not_found text), w')
  unfolding lookup_base_pod after_pod after_node
  lookup-Missing namespace name w _ _ (no_pod s w' e) = ap (after_pod p f namespace name) e
  lookup-Missing namespace name w _ _ (no_node s vpod w' w'' e n) =
      ap (after_pod p f namespace name) e ∙ ap (after_node p f namespace name vpod.node_name) n
  lookup-Missing namespace name w _ _ (unnamed s e) =
      scheduled-lookup namespace name w s ∙ rw ((eq_iff (base_pod_name p f s.vnode) "").1 e) refl
  lookup-Missing namespace name w _ _ (no_base s text w' n e) =
      named-lookup namespace name w s n ∙ e

  -- If the pod, its node, the name of the base pod or the base pod itself is missing, a request for
  -- logs asks for no logs and ends with virtual-kubelet's not-found error. Its text names the pod
  -- or the node that is missing, or is the API server's for the base pod.
  pub get_container_logs-Missing :
      (namespace name container : String) (opts : ContainerLogOpts) (w : W) (text : String) (w' : W)
      → Missing namespace name w text w'
      → get_container_logs p f namespace name container opts w ≡ (err (errdefs_not_found text), w')
  unfolding get_container_logs after_lookup
  get_container_logs-Missing namespace name container opts w text w' m =
      ap (after_lookup p f opts) (lookup-Missing namespace name w text w' m)

  -- The logs of a module's pod are those of the pod with the name that the node's label for the
  -- base's host name gives, or its host name where that label is missing or empty, in the namespace
  -- of the request; and of the container that the base pod's label names, or else of "base",
  -- whatever container was asked for.
  pub get_container_logs-base :
      (namespace name container : String) (opts : ContainerLogOpts) (w : W)
      (s : Scheduled namespace name w) (base : Pod) (w' : W)
      → IsOrElse
      → let host = index p.label_key_of_base_host_name s.vnode.labels in
        let chosen = if host == "" then index p.label_hostname s.vnode.labels else host in
        let named = index p.label_key_of_base_container_name base.labels in
        chosen ≢ ""
        → f.client_set.get_pod namespace chosen s.after ≡ (ok base, w')
        → (options : PodLogOptions) × (get_container_logs p f namespace name container opts w
            ≡ f.client_set.get_logs base.namespace base.name options w')
          × (options.container ≡ (if named == "" then "base" else named))
          × (options.since_time ≡ opts.since_time)
  unfolding get_container_logs after_lookup base_pod_name log_options
  get_container_logs-base namespace name container opts w s base w' o n e =
      let host = index p.label_key_of_base_host_name s.vnode.labels in
      let other = index p.label_hostname s.vnode.labels in
      let same = o.chosen host other in
      (
        log_options p f base opts,
        ap (after_lookup p f opts) (
            named-lookup namespace name w s (rw same n)
            ∙ ap (λ b. f.client_set.get_pod namespace b s.after) same
            ∙ e),
        o.chosen _ _,
        refl,
      )
