-- ===== src/MqttTunnel/Tests.antt =====
-- Runs of the MQTT tunnel on concrete messages.
use module_controller.Prelude.{
  ap, sym, ◌∙◌, ◌<>◌, ◌↔◌, eq_iff, String, ◌≡◌, refl, arith, true, Option, none, some, List, [],
  ◌∷◌, lookup, insert, delete, lookup-insert, lookup-delete,
}
use module_controller.Prelude.Int.{ℤ, pos}
use module_controller.Go.Effect.{Error, message, returns, panics, Go, pure}
use module_controller.Platform.Kube.{Container}
use module_controller.Platform.Ark.{ArkBizInfo, HealthInfo, GenericArkResponseBase}
use module_controller.Model.{
  ArkMqttMsg, BizOperationResponse, BatchInstallBizResponse, BaseStatus, BaseMetadata,
  ArkSimpleAllBizInfoData, QueryBaselineRequest, base_health_topic, base_simple_biz_topic,
  base_all_biz_topic, base_biz_operation_response_topic, base_batch_install_biz_response_topic,
}
use module_controller.Utils.{expired, get_base_identity_from_topic}
use module_controller.MqttClient.{Paho, Handler, MqttConfig, Files, batch_install}
use module_controller.Samples.{platform, container}
use module_controller.MqttTunnel.{MqttTunnel}
use module_controller.MqttTunnel.Nodes.{register_node, unregister_node}
use module_controller.MqttTunnel.Nodes.Laws.{SubscriptionLog, unregister_node-leaves_batch}
use module_controller.MqttTunnel.Messages.{
  heart_beat_msg_callback, health_msg_callback, biz_msg_callback, all_biz_msg_callback,
  query_baseline_msg_callback, biz_operation_response_callback, batch_install_biz_response_callback,
}
use module_controller.MqttTunnel.Messages.Laws.{Dropped, too_old, stale_messages}
use module_controller.MqttTunnel.Messages.Responses.{
  installed, operation_reports, first, none_left, batch_reports, here, batch_panics,
}
use module_controller.MqttTunnel.Commands.{
  biz_model_of, fetch_health_data, query_all_biz_status_data, start_biz, stop_biz,
}
use module_controller.MqttTunnel.Commands.Laws.{commands_published}
use module_controller.MqttTunnel.Start.{start}
use module_controller.MqttTunnel.Start.Laws.{Unreadable, authorities, start_panics_iff}

-- The world of the client: the subscriptions by topic.
abbrev Subscriptions : Type 0
Subscriptions = List (String × Handler)

abbrev paho : Paho Subscriptions
paho = record {
  connect = λ w. (none, w);
  publish = λ topic qos retained text w. (none, w);
  subscribe = λ topic qos h w. (none, insert topic h w);
  unsubscribe = λ topic w. delete topic w;
  disconnect = λ quiesce w. w;
}

abbrev subscriptions : SubscriptionLog paho
subscriptions = record {
  handler_of = λ w topic. lookup topic w;
  subscribed = λ topic other h w w' e.
      ap (λ (r : Option Error × Subscriptions). lookup other r.1) (sym e)
      ∙ lookup-insert topic other h w;
  unsubscribed = λ topic other w. lookup-delete topic other w;
}

abbrev tunnel : MqttTunnel Subscriptions
tunnel = record {
  env = "prod";
  ready = true;
  has_client = true;
  callbacks = record {
    on_base_discovered = none;
    on_base_status_arrived = none;
    on_all_biz_status_arrived = none;
    on_single_biz_status_arrived = none;
  };
}

unregister_node-leaves_batch_example :
    let w =
      unregister_node platform paho tunnel "base1"
        (register_node platform paho tunnel "base1" []).1 in
    (subscriptions.handler_of w (base_health_topic "prod" "base1") ≡ none)
    × (subscriptions.handler_of w (base_simple_biz_topic "prod" "base1") ≡ none)
    × (subscriptions.handler_of w (base_all_biz_topic "prod" "base1") ≡ none)
    × (subscriptions.handler_of w (base_biz_operation_response_topic "prod" "base1") ≡ none)
    × (subscriptions.handler_of w (base_batch_install_biz_response_topic "prod" "base1")
        ≡ some batch_install)
unfolding register_node
unregister_node-leaves_batch_example =
    unregister_node-leaves_batch platform paho subscriptions tunnel "base1" []
      (register_node platform paho tunnel "base1" []).1 refl

commands_published_example :
    let topic : String → String =
      λ command. "koupleless_" <> "prod" <> "/" <> "base1" <> "/" <> command in
    (fetch_health_data platform paho (λ b. b.biz_name) tunnel "base1" []
      ≡ paho.publish (topic "health") 0 true "{}" [])
    × (query_all_biz_status_data platform paho (λ b. b.biz_name) tunnel "base1" []
        ≡ paho.publish (topic "queryAllBiz") 0 true "{}" [])
    × (start_biz platform paho (λ b. b.biz_name) tunnel "base1" "pod1" container []
        ≡ paho.publish (topic "installBiz") 0 true "biz1" [])
    × (stop_biz platform paho (λ b. b.biz_name) tunnel "base1" "pod1" container []
        ≡ paho.publish (topic "uninstallBiz") 0 true "biz1" [])
    × ((biz_model_of platform paho (λ b. b.biz_name) "pod1" container).biz_model_version ≡ "pod1")
    × ((command : String) → get_base_identity_from_topic (topic command) ≡ "base1")
commands_published_example =
    commands_published platform paho (λ b. b.biz_name) tunnel "base1" "pod1" container []
      (omega arith) (omega arith)

-- Authorities that cannot be read.
abbrev no_files : Files
no_files = record {
  read_file = λ path. some (message "no such file");
  load_key_pair = λ crt key. some (message "no such file");
}

abbrev config : MqttConfig
config = record {
  mqtt_broker = "broker";
  mqtt_port = pos 1883;
  mqtt_username = "user";
  mqtt_password = "";
  mqtt_client_prefix = "koupleless";
  mqtt_ca_path = "/ca.pem";
  mqtt_client_crt_path = "";
  mqtt_client_key_path = "";
}

start_panics_iff_example :
    ((start no_files (λ o. paho) config "client1" "test" tunnel []).0 ≡ panics)
    ↔ Unreadable no_files "/ca.pem" "" ""
start_panics_iff_example = start_panics_iff no_files (λ o. paho) config "client1" "test" tunnel []

unreadable : Unreadable no_files "/ca.pem" "" ""
unreadable =
    authorities (message "no such file") (λ e. ground (arith, (eq_iff "/ca.pem" "").1 e)) refl

-- A tunnel whose callbacks write the states down; acknowledging does too.
abbrev reporting : MqttTunnel (List String)
reporting = record {
  env = "prod";
  ready = true;
  has_client = true;
  callbacks = record {
    on_base_discovered = none;
    on_base_status_arrived = none;
    on_all_biz_status_arrived = some (λ name statuses w. "batch" ∷ w);
    on_single_biz_status_arrived = some (λ name status w. status.state ∷ w);
  };
}

abbrev ack : List String → List String
ack w = "ack" ∷ w

abbrev now : List String → ℤ
now w = pos 50000

abbrev topic_of_base : String
topic_of_base = "koupleless_prod/base1/base/bizOperation"

abbrev biz_info : ArkBizInfo
biz_info = record {
  biz_name = "biz1";
  biz_version = "1.0";
  biz_state = "ACTIVATED";
  biz_state_records = [];
}

abbrev operation : ArkMqttMsg BizOperationResponse
operation = record {
  publish_timestamp = pos 1000;
  payload = record {
    command = "installBiz";
    biz_name = "biz1";
    biz_version = "1.0";
    biz_model_version = "pod1";
    response = record {
      code = "SUCCESS";
      payload = record {
        code = "SUCCESS";
        message = "done";
        elapsed_space = pos 0;
        biz_infos = [];
      };
      message = "";
      error_stack_trace = "";
      base_identity = "base1";
    };
  };
}

operation_reports_example :
    biz_operation_response_callback platform now ack reporting topic_of_base (some operation) []
    ≡ (returns tt, "ack" ∷ "ACTIVATED" ∷ [])
operation_reports_example =
    operation_reports platform now ack reporting topic_of_base "ACTIVATED" " succeed" operation
      (λ name status w. status.state ∷ w) [] refl (installed refl refl)

abbrev batch_of : List ArkBizInfo → ArkMqttMsg BatchInstallBizResponse
batch_of biz_infos = record {
  publish_timestamp = pos 1000;
  payload = record {
    command = "batchInstallBiz";
    response = record {
      code = "SUCCESS";
      payload = record {
        biz_url_to_response =
            (
              "file:///biz1.jar",
              record {
                code = "SUCCESS";
                message = "done";
                elapsed_space = pos 0;
                biz_infos = biz_infos;
              },
            )
            ∷ [];
      };
      message = "";
      error_stack_trace = "";
      base_identity = "base1";
    };
  };
}

batch_reports_example :
    batch_install_biz_response_callback platform now ack reporting topic_of_base
      (some (batch_of (biz_info ∷ [])))
      []
    ≡ (returns tt, "ack" ∷ "batch" ∷ [])
batch_reports_example =
    batch_reports platform now ack reporting topic_of_base (batch_of (biz_info ∷ []))
      (("done", biz_info) ∷ []) (λ name statuses w. "batch" ∷ w) [] refl refl
      (first "file:///biz1.jar" _ biz_info [] refl none_left)

batch_panics_example :
    batch_install_biz_response_callback platform now ack reporting topic_of_base
      (some (batch_of []))
      []
    ≡ (panics, "ack" ∷ [])
batch_panics_example =
    batch_panics platform now ack reporting topic_of_base (batch_of []) [] refl (here _ _ refl)

abbrev no_baseline : QueryBaselineRequest → Go (List String) (List Container)
no_baseline request = pure []

abbrev silent : Paho (List String)
silent = record {
  connect = λ w. (none, w);
  publish = λ topic qos retained text w. (none, w);
  subscribe = λ topic qos h w. (none, w);
  unsubscribe = λ topic w. w;
  disconnect = λ quiesce w. w;
}

stale_messages_example :
    ((body : Option (ArkMqttMsg BaseStatus))
      → Dropped (pos 50000) body
      → heart_beat_msg_callback platform now ack reporting body [] ≡ (returns tt, "ack" ∷ []))
    × ((body : Option (ArkMqttMsg (GenericArkResponseBase HealthInfo)))
        → Dropped (pos 50000) body
        → health_msg_callback platform now ack reporting topic_of_base body []
          ≡ (returns tt, "ack" ∷ []))
    × ((body : Option (ArkMqttMsg ArkSimpleAllBizInfoData))
        → Dropped (pos 50000) body
        → biz_msg_callback platform now ack reporting topic_of_base body []
          ≡ (returns tt, "ack" ∷ []))
    × ((body : Option (ArkMqttMsg (GenericArkResponseBase (List ArkBizInfo))))
        → Dropped (pos 50000) body
        → all_biz_msg_callback platform now ack reporting topic_of_base body []
          ≡ (returns tt, "ack" ∷ []))
    × ((body : Option (ArkMqttMsg BaseMetadata))
        → Dropped (pos 50000) body
        → query_baseline_msg_callback platform now ack no_baseline silent
            (λ b. "")
            reporting
            topic_of_base
            body
            []
          ≡ (returns none, "ack" ∷ []))
stale_messages_example =
    stale_messages platform now ack reporting no_baseline silent (λ b. "") topic_of_base []

-- A message published at 1000 has expired at 50000.
old_message : Dropped (pos 50000) (some operation)
unfolding expired
old_message = too_old operation refl
