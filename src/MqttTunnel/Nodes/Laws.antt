-- ===== src/MqttTunnel/Nodes/Laws.antt =====
-- Which topics the client is subscribed to after a node was registered and unregistered.
use text.Mathlib.TextLemmas.{append_cancel_left}
use module_controller.Prelude.{
  refl, String, true, false, ◌≡◌, ◌∙◌, Option, none, some, ◌==◌, ◌<>◌, Bool-cases, inl, inr,
  if◌then◌else◌, eq_iff, eq_refl, arith,
}
use module_controller.Model.{
  base_health_topic, base_simple_biz_topic, base_all_biz_topic, base_biz_operation_response_topic,
  base_batch_install_biz_response_topic,
}
use module_controller.MqttTunnel.{MqttTunnel}
use module_controller.MqttTunnel.Nodes.{
  then_on, ◌>=>◌, subscribe_topics, register_node, unregister_node,
}
use module_controller.Go.Effect.{Error}
use module_controller.Platform.{Platform}
use module_controller.MqttClient.{
  Handler, health, simple_biz, all_biz, biz_operation, batch_install, Paho, qos1,
}

-- What MQTT promises of subscriptions, which a client keeps by the text of the topic: a subscription
-- without an error adds its handler, and unsubscribing removes the topic's.
pub record SubscriptionLog {W : Type 0} (paho : Paho W) : Type 0 where
  pub handler_of : W → String → Option Handler
  pub subscribed :
      (topic other : String) (h : Handler) (w w' : W)
      → paho.subscribe topic qos1 h w ≡ (none, w')
      → handler_of w' other ≡ (if topic == other then some h else handler_of w other)
  pub unsubscribed :
      (topic other : String) (w : W)
      → handler_of (paho.unsubscribe topic w) other
        ≡ (if topic == other then none else handler_of w other)

-- Each topic of a node has its own handler.
abbrev pub AllSubscribed :
    {W : Type 0} {paho : Paho W} → SubscriptionLog paho → W → String → String → Type 0
AllSubscribed log w env id =
    (log.handler_of w (base_health_topic env id) ≡ some health)
    × (log.handler_of w (base_simple_biz_topic env id) ≡ some simple_biz)
    × (log.handler_of w (base_all_biz_topic env id) ≡ some all_biz)
    × (log.handler_of w (base_biz_operation_response_topic env id) ≡ some biz_operation)
    × (log.handler_of w (base_batch_install_biz_response_topic env id) ≡ some batch_install)

-- A topic of a node, by how it ends.
abbrev node_topic : String → String → String → String
node_topic env id ending = "koupleless_" <> env <> "/" <> id <> ending

node_topic_inj : (env id a b : String) → node_topic env id a ≡ node_topic env id b → a ≡ b
node_topic_inj env id a b e = append_cancel_left id a b (
    append_cancel_left "/" (id <> a) (id <> b) (
      append_cancel_left env ("/" <> id <> a) ("/" <> id <> b)
        (append_cancel_left "koupleless_" (env <> "/" <> id <> a) (env <> "/" <> id <> b) e)))

node_topic-differs :
    (env id a b : String) → (a == b) ≡ false → (node_topic env id a == node_topic env id b) ≡ false
node_topic-differs env id a b n = elim (Bool-cases (node_topic env id a == node_topic env id b)) [
  | inl same ↦
      let k : (a == b) ≡ true = (eq_iff a b).1 (node_topic_inj env id a b ((eq_iff _ _).0 same)) in
      ground (arith, k, n)
  | inr other ↦ other
]

module _ {W : Type 0} (paho : Paho W) (log : SubscriptionLog paho) (env id : String) where
  gained :
      (a : String) (h : Handler) (w w' : W)
      → paho.subscribe (node_topic env id a) qos1 h w ≡ (none, w')
      → log.handler_of w' (node_topic env id a) ≡ some h
  gained a h w w' e =
      log.subscribed (node_topic env id a) (node_topic env id a) h w w' e
      ∙ rw (eq_refl (node_topic env id a))

  kept :
      (a b : String) (h : Handler) (w w' : W) {found : Option Handler}
      → (a == b) ≡ false
      → paho.subscribe (node_topic env id a) qos1 h w ≡ (none, w')
      → log.handler_of w (node_topic env id b) ≡ found
      → log.handler_of w' (node_topic env id b) ≡ found
  kept a b h w w' n e k =
      log.subscribed (node_topic env id a) (node_topic env id b) h w w' e
      ∙ rw (node_topic-differs env id a b n) k

  -- Both calls of a chain that ends without an error ended without one.
  chain-none :
      (n : W → Option Error × W) (r : Option Error × W) (w' : W)
      → then_on n r ≡ (none, w')
      → (v : W) × (r ≡ (none, v)) × (n v ≡ (none, w'))
  chain-none n (none, v) w' e = (v, refl, e)
  chain-none n (some x, v) w' e = ground (arith, e)

  abbrev sub_to : String → Handler → W → Option Error × W
  sub_to ending h = paho.subscribe (node_topic env id ending) qos1 h

  -- After the five subscriptions each topic has its handler.
  subscribed_all :
      (p : Platform) (w w' : W)
      → subscribe_topics p paho env id w ≡ (none, w')
      → AllSubscribed log w' env id
  unfolding subscribe_topics
  subscribed_all p w w' e =
      let sub1 = sub_to "/base/health" health in
      let sub2 = sub_to "/base/simpleBiz" simple_biz in
      let sub3 = sub_to "/base/biz" all_biz in
      let sub4 = sub_to "/base/bizOperation" biz_operation in
      let sub5 = sub_to "/base/batchInstallBizResponse" batch_install in
      let (w4, e4, s5) = chain-none sub5 ((sub1 >=> sub2 >=> sub3 >=> sub4) w) w' e in
      let (w3, e3, s4) = chain-none sub4 ((sub1 >=> sub2 >=> sub3) w) w4 e4 in
      let (w2, e2, s3) = chain-none sub3 ((sub1 >=> sub2) w) w3 e3 in
      let (w1, s1, s2) = chain-none sub2 (sub1 w) w2 e2 in
      (
        kept "/base/batchInstallBizResponse" "/base/health" batch_install w4 w' refl s5 (
            kept "/base/bizOperation" "/base/health" biz_operation w3 w4 refl s4 (
              kept "/base/biz" "/base/health" all_biz w2 w3 refl s3 (
                kept "/base/simpleBiz" "/base/health" simple_biz w1 w2 refl s2
                  (gained "/base/health" health w w1 s1)))),
        kept "/base/batchInstallBizResponse" "/base/simpleBiz" batch_install w4 w' refl s5 (
            kept "/base/bizOperation" "/base/simpleBiz" biz_operation w3 w4 refl s4 (
              kept "/base/biz" "/base/simpleBiz" all_biz w2 w3 refl s3
                (gained "/base/simpleBiz" simple_biz w1 w2 s2))),
        kept "/base/batchInstallBizResponse" "/base/biz" batch_install w4 w' refl s5 (
            kept "/base/bizOperation" "/base/biz" biz_operation w3 w4 refl s4
              (gained "/base/biz" all_biz w2 w3 s3)),
        kept "/base/batchInstallBizResponse" "/base/bizOperation" batch_install w4 w' refl s5
            (gained "/base/bizOperation" biz_operation w3 w4 s4),
        gained "/base/batchInstallBizResponse" batch_install w4 w' s5,
      )

  lost :
      (a : String) (w : W)
      → log.handler_of (paho.unsubscribe (node_topic env id a) w) (node_topic env id a) ≡ none
  lost a w =
      log.unsubscribed (node_topic env id a) (node_topic env id a) w
      ∙ rw (eq_refl (node_topic env id a))

  left :
      (a b : String) (w : W) {found : Option Handler}
      → (a == b) ≡ false
      → log.handler_of w (node_topic env id b) ≡ found
      → log.handler_of (paho.unsubscribe (node_topic env id a) w) (node_topic env id b) ≡ found
  left a b w n k =
      log.unsubscribed (node_topic env id a) (node_topic env id b) w
      ∙ rw (node_topic-differs env id a b n) k

module _ (p : Platform) {W : Type 0} (paho : Paho W) (log : SubscriptionLog paho) where
  -- When RegisterNode returns without an error, each of the node's five topics is subscribed to,
  -- each with its own handler.
  pub register_node-subscribes :
      (t : MqttTunnel W) (node_name : String) (w w' : W)
      → register_node p paho t node_name w ≡ (none, w')
      → AllSubscribed log w' t.env (p.extract_node_id_from_node_name node_name)
  unfolding register_node
  register_node-subscribes t node_name w w' e =
      subscribed_all paho log t.env (p.extract_node_id_from_node_name node_name) p w w' e

  -- UnRegisterNode of a registered node unsubscribes from four of its topics, but the topic of the
  -- answers to batch installations stays subscribed to, with its handler.
  pub unregister_node-leaves_batch :
      (t : MqttTunnel W) (node_name : String) (w w' : W)
      → register_node p paho t node_name w ≡ (none, w')
      → (log.handler_of
            (unregister_node p paho t node_name w')
            (base_health_topic t.env (p.extract_node_id_from_node_name node_name))
          ≡ none)
        × (log.handler_of
              (unregister_node p paho t node_name w')
              (base_simple_biz_topic t.env (p.extract_node_id_from_node_name node_name))
            ≡ none)
        × (log.handler_of
              (unregister_node p paho t node_name w')
              (base_all_biz_topic t.env (p.extract_node_id_from_node_name node_name))
            ≡ none)
        × (log.handler_of
              (unregister_node p paho t node_name w')
              (base_biz_operation_response_topic t.env (p.extract_node_id_from_node_name node_name))
            ≡ none)
        × (log.handler_of (unregister_node p paho t node_name w') (
              base_batch_install_biz_response_topic t.env
                (p.extract_node_id_from_node_name node_name))
            ≡ some batch_install)
  unfolding unregister_node
  unregister_node-leaves_batch t node_name w w' e =
      let id = p.extract_node_id_from_node_name node_name in
      let v1 = paho.unsubscribe (base_health_topic t.env id) w' in
      let v2 = paho.unsubscribe (base_simple_biz_topic t.env id) v1 in
      let v3 = paho.unsubscribe (base_all_biz_topic t.env id) v2 in
      let (h1, h2, h3, h4, batch) = register_node-subscribes t node_name w w' e in
      (
        left paho log t.env id "/base/bizOperation" "/base/health" v3 refl (
            left paho log t.env id "/base/biz" "/base/health" v2 refl (
              left paho log t.env id "/base/simpleBiz" "/base/health" v1 refl
                (lost paho log t.env id "/base/health" w'))),
        left paho log t.env id "/base/bizOperation" "/base/simpleBiz" v3 refl (
            left paho log t.env id "/base/biz" "/base/simpleBiz" v2 refl
              (lost paho log t.env id "/base/simpleBiz" v1)),
        left paho log t.env id "/base/bizOperation" "/base/biz" v3 refl
            (lost paho log t.env id "/base/biz" v2),
        lost paho log t.env id "/base/bizOperation" v3,
        left paho log t.env id "/base/bizOperation" "/base/batchInstallBizResponse" v3 refl (
            left paho log t.env id "/base/biz" "/base/batchInstallBizResponse" v2 refl (
              left paho log t.env id "/base/simpleBiz" "/base/batchInstallBizResponse" v1 refl (
                left paho log t.env id "/base/health" "/base/batchInstallBizResponse" w' refl
                  batch))),
      )
