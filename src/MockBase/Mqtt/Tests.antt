-- ===== src/MockBase/Mqtt/Tests.antt =====
-- Runs of the mock base that talks MQTT.
use mathlib.Core.Option.{none-ne-some}
use module_controller.Prelude.{
  String, true, false, ◌≡◌, refl, arith, if◌then◌else◌, ◌==◌, none, some, List, [], ◌∷◌, lookup,
  insert,
}
use module_controller.Prelude.Int.{ℤ, pos}
use module_controller.Platform.Ark.{BizModel}
use module_controller.Model.{command_uninstall_biz}
use module_controller.Utils.{format_arklet_command_topic}
use module_controller.MqttClient.{Paho}
use module_controller.MockBase.{get_biz_identity, IsKeyed}
use module_controller.MockBase.Mqtt.{
  Json, MockMqttBase, Running, install_biz, uninstall_biz, process_command, resolved_biz_info,
}
use module_controller.MockBase.Mqtt.Tasks.{run_task, process_install_biz}
use module_controller.MockBase.Mqtt.Laws.{
  Event, ran, baseline_came, state_set, handle_all, handle_all-IsKeyed,
}
use module_controller.Samples.{platform}
use module_controller.Platform.Vnode.{BizStatusData}
use module_controller.Model.{ArkMqttMsg, BizOperationResponse}
use module_controller.MqttTunnel.{MqttTunnel}
use module_controller.MqttTunnel.Messages.{biz_operation_response_callback}
use module_controller.MockBase.Mqtt.{operation_success}
use module_controller.MockBase.Mqtt.{health, query_all_biz}
use module_controller.Model.{command_health, command_query_all_biz, command_install_biz}
use module_controller.MockBase.Mqtt.Dispatch.{process_command-format_arklet_command_topic}
use module_controller.MockBase.Mqtt.Answers.{uninstall_biz-reports}

abbrev model : BizModel
model = record { biz_name = "biz1"; biz_version = "1.0"; biz_url = ""; biz_model_version = "" }

abbrev json : Json
json = record {
  parse_biz_model = λ text. model;
  parse_biz_models = λ text. model ∷ [];
  write_heart_beat = λ d. "heart";
  write_health = λ d. "health";
  write_all_biz = λ d. "biz";
  write_operation = λ d. "operation";
  write_simple_biz = λ d. "simple";
  write_metadata = λ d. "metadata";
}

-- The world is the list of the topics that were published to.
abbrev paho : Paho (List String)
paho = record {
  connect = λ w. (none, w);
  publish = λ topic qos retained text w. (none, topic ∷ w);
  subscribe = λ topic qos h w. (none, w);
  unsubscribe = λ topic w. w;
  disconnect = λ quiesce w. w;
}

abbrev now : List String → ℤ
now w = pos 5000

abbrev base : MockMqttBase
base = record {
  env = "test";
  curr_state = "ACTIVATED";
  base_metadata = record { identity = "base1"; version = "1.0"; cluster_name = "c"; name = "" };
  biz_infos = [];
  baseline = [];
  exited = false;
  reachable = true;
}

abbrev running : Running (List String)
running = record { base = base; world = [] }

no_bizs-IsKeyed : IsKeyed []
unfolding lookup
no_bizs-IsKeyed = record { named = λ k info e. absurd (none-ne-some info e) }

abbrev events : List Event
events =
    ran (install_biz "{}")
    ∷ state_set "biz1:1.0" "ACTIVATED" "" ""
    ∷ baseline_came "[]"
    ∷ ran (uninstall_biz "{}")
    ∷ []

handle_all-IsKeyed_example : IsKeyed (handle_all json paho now events running).base.biz_infos
unfolding run_task process_install_biz insert lookup get_biz_identity
handle_all-IsKeyed_example =
    handle_all-IsKeyed json paho now events running
      (tt, ((resolved_biz_info model, refl), (tt, (tt, tt)))) no_bizs-IsKeyed

abbrev tunnel : MqttTunnel (List String)
tunnel = record {
  env = "test";
  ready = true;
  has_client = true;
  callbacks = record {
    on_base_discovered = none;
    on_base_status_arrived = none;
    on_all_biz_status_arrived = none;
    on_single_biz_status_arrived = some (λ name status w. status.key ∷ w);
  };
}

abbrev ack : List String → List String
ack w = "ack" ∷ w

abbrev answer : ArkMqttMsg BizOperationResponse
answer = record {
  publish_timestamp = pos 5000;
  payload = operation_success command_uninstall_biz "biz1" "1.0";
}

-- A broker that hands each message to the tunnel, which reads the answer from it.
abbrev answering : Paho (List String)
answering = record {
  connect = λ w. (none, w);
  publish = λ topic qos retained text w.
      (none, (biz_operation_response_callback platform now ack tunnel topic (some answer) w).1);
  subscribe = λ topic qos h w. (none, w);
  unsubscribe = λ topic w. w;
  disconnect = λ quiesce w. w;
}

abbrev with_biz : Running (List String)
with_biz = record {
  base = record {
    env = "test";
    curr_state = "ACTIVATED";
    base_metadata = record { identity = "base1"; version = "1.0"; cluster_name = "c"; name = "" };
    biz_infos = ("biz1:1.0", resolved_biz_info model) ∷ [];
    baseline = [];
    exited = false;
    reachable = true;
  };
  world = [];
}

uninstall_biz-reports_example :
    let r' = run_task json answering now (uninstall_biz "{}") with_biz in
    (status : BizStatusData) × (process_command
        (format_arklet_command_topic "test" "base1" command_uninstall_biz)
        "{}"
        with_biz.base
      ≡ some (uninstall_biz "{}"))
    × (r'.world ≡ ack (status.key ∷ []))
    × (status.state ≡ platform.biz_state_stopped)
    × (status.key ≡ get_biz_identity model)
    × ((k : String)
        → lookup k r'.base.biz_infos
          ≡ (if get_biz_identity model == k then none else lookup k with_biz.base.biz_infos))
uninstall_biz-reports_example =
    uninstall_biz-reports platform json answering now ack tunnel "{}" with_biz model
      (λ name status w. status.key ∷ w) refl refl (omega arith) (omega arith) refl
      (record { delivered = λ w. refl })

process_command-format_arklet_command_topic_example :
    (process_command (format_arklet_command_topic "test" "base1" command_health) "{}" base
      ≡ some health)
    × (process_command (format_arklet_command_topic "test" "base1" command_query_all_biz) "{}" base
        ≡ some query_all_biz)
    × (process_command (format_arklet_command_topic "test" "base1" command_install_biz) "{}" base
        ≡ some (install_biz "{}"))
    × (process_command (format_arklet_command_topic "test" "base1" command_uninstall_biz) "{}" base
        ≡ some (uninstall_biz "{}"))
process_command-format_arklet_command_topic_example =
    process_command-format_arklet_command_topic "test" "base1" "{}" base refl
