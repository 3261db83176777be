-- ===== src/HttpTunnel/Discovery.antt =====
-- startBaseDiscovery: the handlers of POST /heartbeat and POST /queryBaseline. A body comes as what
-- decoding it gives. A panic of a handler is recovered by net/http and is an outcome here.
pub mod Laws
use module_controller.Prelude.{
  ℕ, String, Option, none, some, List, [], ◌∷◌, ◌==◌, map, if◌then◌else◌,
}
use module_controller.Go.Effect.{
  Outcome, returns, panics, Result, ok, err, Error, text_of, Go, pure, ◌>>=◌,
}
use module_controller.Platform.{Platform}
use module_controller.Platform.Kube.{Container}
use module_controller.Platform.Ark.{BizModel}
use module_controller.Model.{BaseStatus, BaseMetadata, QueryBaselineRequest}
use module_controller.Utils.{
  convert_base_status_to_node_info, convert_base_metadata_to_baseline_query,
  translate_core_v1_container_to_biz_model,
}
use module_controller.Tunnel.{call}
use module_controller.HttpTunnel.{HttpTunnel, Running}
use module_controller.HttpTunnel.Nodes.{write, with_map}

pub record Reply : Type 0 where
  pub status : ℕ
  pub content : String

abbrev pub method_not_allowed : Reply
method_not_allowed = record { status = 405; content = "" }

abbrev pub bad_request : Error → Reply
bad_request e = record { status = 400; content = text_of e }

abbrev pub success : Reply
success = record { status = 200; content = "SUCCESS" }

abbrev replied : Outcome (Unit {0}) → Outcome Reply
replied (returns u) = returns success
replied panics = panics

module _ (p : Platform) {W : Type 0} where
  -- The callback of the virtual kubelet, which is not tested for nil, and the reply.
  announce : BaseStatus → HttpTunnel W → W → Outcome Reply × Running W
  announce status h w =
      let (o, w') =
        call h.callbacks.on_base_discovered (convert_base_status_to_node_info p status h.env) w in
      (replied o, record { tunnel = h; world = w' })

  written : BaseStatus → Outcome (HttpTunnel W) → Go (Running W) Reply
  unfolding announce
  written status panics r = (panics, r)
  written status (returns h) r = announce status h r.world

  heartbeat_decoded : Result BaseStatus → Go (Running W) Reply
  unfolding written write
  heartbeat_decoded (err e) r = (returns (bad_request e), r)
  heartbeat_decoded (ok status) r =
      written status
        (with_map r.tunnel
          (write r.tunnel.node_id_to_base_status_map status.base_metadata.identity status))
        r

  unfoldable pub heartbeat : String → Result BaseStatus → Go (Running W) Reply
  unfolding heartbeat_decoded
  heartbeat method body r =
      if method == "POST" then heartbeat_decoded body r else (returns method_not_allowed, r)

  -- `query` is QueryContainerBaseline of the controller, `marshal` is json.Marshal.
  module _ (query : QueryBaselineRequest → Go W (List Container))
      (marshal : List BizModel → String) where
    baseline_decoded : Result BaseMetadata → Go W Reply
    baseline_decoded (err e) w = (returns (bad_request e), w)
    baseline_decoded (ok metadata) w =
        (query (convert_base_metadata_to_baseline_query metadata) >>= λ baseline. pure (record {
          status = 200;
          content = marshal (map (translate_core_v1_container_to_biz_model p) baseline);
        }))
          w

    unfoldable pub query_baseline : String → Result BaseMetadata → Go W Reply
    unfolding baseline_decoded
    query_baseline method body w =
        if method == "POST" then baseline_decoded body w else (returns method_not_allowed, w)
