-- ===== src/ReportServer/Laws.antt =====
-- Which webhooks get a log request.
use mathlib.Core.List.{foldl}
use module_controller.Prelude.{
  ℕ, String, not, ◌≡◌, ◌≢◌, ◌∙◌, refl, ap, List, [], ◌∷◌, ◌==◌, filter, Bool-cases, inl, inr,
  eq-false_of_ne, eq_iff,
}
use module_controller.Go.Effect.{Error, Result, ok, err}
use module_controller.ReportServer.{
  LogRequest, Outside, Reply, http_error, dingtalk_message, send, send_all, marshalled, decoded,
  read, log_handler,
}

module _ {W : Type 0} (o : Outside W) where
  send_all-foldl :
      (webhooks : List String) (json : String) (w : W)
      → send_all o webhooks json w
        ≡ foldl (λ v hook. send o json hook v) w (filter (λ hook. not (hook == "")) webhooks)
  unfolding send_all
  send_all-foldl [] json w = refl
  send_all-foldl (hook ∷ rest) json w = elim (Bool-cases (hook == "")) [
    | inl empty ↦ rw empty (send_all-foldl rest json w)
    | inr full ↦ rw full (send_all-foldl rest json (send o json hook w))
  ]

  -- A log request that is posted, can be read and decoded, and whose message can be encoded, is
  -- answered with the status 200; the message goes once to each webhook that is not empty, in their
  -- order, and one that cannot be reached does not keep the others from it.
  pub log_handler-sends :
      (webhooks : List String) (body json : String) (request : LogRequest) (w : W)
      → o.unmarshal body ≡ ok request
      → o.marshal (dingtalk_message request) ≡ ok json
      → (reply : Reply) × (log_handler o webhooks "POST" (ok body) w ≡ (
        reply,
        foldl (λ v hook. send o json hook v) w (filter (λ hook. not (hook == "")) webhooks),
      ))
        × (reply.status ≡ 200)
  unfolding log_handler read decoded marshalled
  log_handler-sends webhooks body json request w u e = (
    record { status = 200; content = "" },
    ap (λ d. decoded o webhooks d w) u
        ∙ ap (λ d. marshalled o webhooks d w) e
        ∙ ap (λ v. (record { status = 200; content = "" }, v)) (send_all-foldl webhooks json w),
    refl,
  )

  -- A request that the handler turns away, with the status of the answer.
  pub data Refused (method : String) (body : Result String) : ℕ → Type 0 where
    wrong_method : method ≢ "POST" → Refused method body 405
    unread : (e : Error) → method ≡ "POST" → body ≡ err e → Refused method body 400
    undecoded :
        (e : Error) (text : String)
        → method ≡ "POST"
        → body ≡ ok text
        → o.unmarshal text ≡ err e
        → Refused method body 400
    unencoded :
        (e : Error) (text : String) (request : LogRequest)
        → method ≡ "POST"
        → body ≡ ok text
        → o.unmarshal text ≡ ok request
        → o.marshal (dingtalk_message request) ≡ err e
        → Refused method body 500

  posted :
      (webhooks : List String) (method : String) (body : Result String) (w : W)
      → method ≡ "POST"
      → log_handler o webhooks method body w ≡ read o webhooks body w
  unfolding log_handler
  posted webhooks method body w e = rw ((eq_iff method "POST").1 e) refl

  -- A request with another method, or that cannot be read, decoded or encoded, is answered with the
  -- status of its error and sent to no webhook.
  pub log_handler-Refused :
      (webhooks : List String) (method : String) (body : Result String) (status : ℕ) (w : W)
      → Refused method body status
      → (reply : Reply) × (log_handler o webhooks method body w ≡ (reply, w))
        × (reply.status ≡ status)
  unfolding log_handler read decoded marshalled
  log_handler-Refused webhooks method body _ w (wrong_method n) =
      (http_error 405 "Method not allowed", rw (eq-false_of_ne _ _ n) refl, refl)
  log_handler-Refused webhooks method body _ w (unread e m b) =
      (http_error 400 "Bad request", posted webhooks method body w m ∙ rw b refl, refl)
  log_handler-Refused webhooks method body _ w (undecoded e text m b u) = (
    http_error 400 "Bad request",
    posted webhooks method body w m ∙ rw b (ap (λ d. decoded o webhooks d w) u),
    refl,
  )
  log_handler-Refused webhooks method body _ w (unencoded e text request m b u x) = (
    http_error 500 "Internal server error",
    posted webhooks method body w m
        ∙ rw b (ap (λ d. decoded o webhooks d w) u ∙ ap (λ d. marshalled o webhooks d w) x),
    refl,
  )
