-- ===== src/KubeletProxy.antt =====
-- staging/kubelet_proxy: the proxy that serves the logs of a module's pod from the pod of its base.
pub mod Laws
mod Tests
use mathlib.Core.Option
use module_controller.Prelude.{
  String, Bool, true, false, Option, none, some, List, ◌==◌, index, if◌then◌else◌, ◌<>◌,
}
use module_controller.Prelude.Int.{ℤ, pos, ltb_ℤ}
use module_controller.Go.Effect.{
  Error, message, not_found, errdefs_not_found, Result, ok, err, text_of,
}
use module_controller.Platform.{Platform}
use module_controller.Platform.Kube.{Pod, Node}

-- What a client of the logs asks for; the zero time is none.
pub record ContainerLogOpts : Type 0 where
  pub tail : ℤ
  pub limit_bytes : ℤ
  pub timestamps : Bool
  pub follow : Bool
  pub previous : Bool
  pub since_seconds : ℤ
  pub since_time : Option ℤ

-- corev1.PodLogOptions; a nil pointer is none.
pub record PodLogOptions : Type 0 where
  pub container : String
  pub follow : Bool
  pub previous : Bool
  pub timestamps : Bool
  pub tail_lines : Option ℤ
  pub limit_bytes : Option ℤ
  pub since_time : Option ℤ
  pub since_seconds : Option ℤ

-- The client of the API server and the log, on the state `W` of everything outside; virtual-kubelet's
-- OrElse, and the message of apierrors.NewNotFound for a resource and a name. `S` is a stream.
pub record ClientSet (W S : Type 0) : Type 0 where
  pub get_pod : String → String → W → Result Pod × W
  pub get_node : String → W → Result Node × W
  pub get_logs : String → String → PodLogOptions → W → Result S × W
  pub log_error : String → Error → W → W
  pub or_else : String → String → String
  pub not_found_text : String → String → String

pub record PodHandler (W S : Type 0) : Type 0 where
  pub client_set : ClientSet W S

unfoldable pub new_pod_handler : {W S : Type 0} → Option (ClientSet W S) → Result (PodHandler W S)
new_pod_handler none = err (message "clientSet can't be nil")
new_pod_handler (some client_set) = ok (record { client_set = client_set })

abbrev if_positive : ℤ → Option ℤ
if_positive n = if ltb_ℤ (pos 0) n then some n else none

module _ (p : Platform) {W S : Type 0} (f : PodHandler W S) where
  unfoldable pub base_pod_name : Node → String
  unfolding index
  base_pod_name node =
      f.client_set.or_else (index p.label_key_of_base_host_name node.labels)
        (index p.label_hostname node.labels)

  unfoldable pub after_node : String → String → String → Result Node × W → Result Pod × W
  unfolding base_pod_name
  after_node namespace vpod_name vnode_name (err (not_found s), w) =
      (err (not_found (f.client_set.not_found_text "nodes" vnode_name)), w)
  after_node namespace vpod_name vnode_name (err e, w) =
      (err e, f.client_set.log_error vnode_name e w)
  after_node namespace vpod_name vnode_name (ok node, w) =
      let name = base_pod_name node in
      if name == ""
      then (err (not_found (f.client_set.not_found_text "pods" vpod_name)), w)
      else f.client_set.get_pod namespace name w

  unfoldable pub after_pod : String → String → Result Pod × W → Result Pod × W
  unfolding after_node
  after_pod namespace vpod_name (err (not_found s), w) =
      (err (not_found (f.client_set.not_found_text "pods" vpod_name)), w)
  after_pod namespace vpod_name (err e, w) = (err e, f.client_set.log_error vpod_name e w)
  after_pod namespace vpod_name (ok vpod, w) =
      after_node namespace vpod_name vpod.node_name (f.client_set.get_node vpod.node_name w)

  unfoldable pub lookup_base_pod : String → String → W → Result Pod × W
  unfolding after_pod
  lookup_base_pod namespace vpod_name w =
      after_pod namespace vpod_name (f.client_set.get_pod namespace vpod_name w)

  unfoldable pub log_options : Pod → ContainerLogOpts → PodLogOptions
  unfolding index
  log_options base_pod opts = record {
    container =
        f.client_set.or_else (index p.label_key_of_base_container_name base_pod.labels) "base";
    follow = opts.follow;
    previous = opts.previous;
    timestamps = opts.timestamps;
    tail_lines = if_positive opts.tail;
    limit_bytes = if_positive opts.limit_bytes;
    since_time = opts.since_time;
    since_seconds = if_positive opts.since_seconds;
  }

  unfoldable pub after_lookup : ContainerLogOpts → Result Pod × W → Result S × W
  unfolding log_options
  after_lookup opts (err (not_found s), w) = (err (errdefs_not_found s), w)
  after_lookup opts (err e, w) = (err e, w)
  after_lookup opts (ok base_pod, w) =
      f.client_set.get_logs base_pod.namespace base_pod.name (log_options base_pod opts) w

  -- The container's name is only logged.
  unfoldable pub get_container_logs : String → String → String → ContainerLogOpts → W → Result S × W
  unfolding after_lookup lookup_base_pod
  get_container_logs namespace pod_name container_name opts w =
      after_lookup opts (lookup_base_pod namespace pod_name w)

-- proxy.go: StartKubeletProxy up to its goroutines. `load` is tls.LoadX509KeyPair, of which only the
-- error matters here; the result is whether the server is started.
abbrev tls_error : Error → Error
tls_error e = message ("fail to load TLS certificate and key: " <> text_of e)

unfoldable pub load_tls_config :
    {W : Type 0} → (String → String → W → Option Error × W) → String → String → W → Option Error × W
load_tls_config load cert_file key_file w =
    let (e, w') = load cert_file key_file w in (Option.map tls_error e, w')

after_handler :
    {W S : Type 0} → (W → Option Error × W) → Result (PodHandler W S) → W → Option Error × W
after_handler load_config (err e) w = (some e, w)
after_handler load_config (ok handler) w = load_config w

unfoldable pub start_kubelet_proxy :
    {W S : Type 0}
    → (String → String → W → Option Error × W)
    → String
    → String
    → Option (ClientSet W S)
    → W
    → Option Error × W
unfolding new_pod_handler load_tls_config after_handler
start_kubelet_proxy load cert_file key_file client_set w =
    after_handler (load_tls_config load cert_file key_file) (new_pod_handler client_set) w
