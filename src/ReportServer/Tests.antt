-- ===== src/ReportServer/Tests.antt =====
-- Log requests to one webhook and an empty one.
use mathlib.Core.List.{foldl}
use module_controller.Prelude.{String, not, ◌≡◌, refl, none, List, [], ◌∷◌, ◌==◌, filter}
use module_controller.Go.Effect.{ok}
use module_controller.ReportServer.{LogRequest, Outside, Reply, send, log_handler, init_webhooks}
use module_controller.ReportServer.Laws.{log_handler-sends}

abbrev request : LogRequest
request = record {
  trace_id = "t1";
  scene = "deploy";
  event = "node1";
  result = "failed";
  message = "timeout";
  code = "00003";
  labels = [];
}

-- The world is the list of the webhooks that were posted to.
abbrev outside : Outside (List String)
outside = record {
  unmarshal = λ text. ok request;
  marshal = λ m. ok "json";
  post = λ hook text w. (none, hook ∷ w);
  log_error = λ e w. w;
}

abbrev webhooks : List String
webhooks = "http://hook1" ∷ "" ∷ []

log_handler-sends_example :
    (reply : Reply) × (log_handler outside webhooks "POST" (ok "{}") [] ≡ (
      reply,
      foldl (λ v hook. send outside "json" hook v) [] (filter (λ hook. not (hook == "")) webhooks),
    ))
    × (reply.status ≡ 200)
log_handler-sends_example = log_handler-sends outside webhooks "{}" "json" request [] refl refl

no_hooks : init_webhooks (λ name default. default) ≡ "" ∷ []
unfolding init_webhooks
no_hooks = refl
