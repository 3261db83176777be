-- ===== src/MockBase/Mqtt/Tasks.antt =====
-- suite/mqtt/mock_mqtt_base.go: what the base publishes and when. Install, uninstall and SetBizState
-- hold the lock of the base, so each is one step.
use module_controller.Prelude.{
  String, false, List, map, if◌then◌else◌, ◌==◌, lookup, insert, delete, ◌<>◌,
}
use module_controller.Prelude.Int.{ℤ, pos}
use module_controller.Go.Strconv.{itoa}
use module_controller.Platform.Ark.{ArkBizInfo, HealthInfo, GenericArkResponseBase}
use module_controller.Model.{
  ArkMqttMsg, BaseStatus, BizOperationResponse, command_install_biz, command_uninstall_biz,
  base_health_topic, base_simple_biz_topic, base_all_biz_topic, base_biz_operation_response_topic,
}
use module_controller.MqttClient.{Paho, connect, publish, disconnect, qos1}
use module_controller.MockBase.{get_biz_identity}
use module_controller.MockBase.Mqtt.{
  Json, MockMqttBase, Running, Task, health, query_all_biz, install_biz, uninstall_biz,
  put_baseline, add_unless_known, operation_success, info_or_zero, with_state, simple_biz_info,
}

-- The topics that the base writes out, with no constant of their own in consts.go for one base.
abbrev pub heart_topic : MockMqttBase → String
heart_topic b = "koupleless_" <> b.env <> "/" <> b.base_metadata.identity <> "/base/heart"

abbrev pub query_baseline_topic : MockMqttBase → String
query_baseline_topic b =
    "koupleless_" <> b.env <> "/" <> b.base_metadata.identity <> "/base/queryBaseline"

-- The data of getHeartBeatMsg, of getHealthMsg and of getQueryAllBizMsg.
abbrev pub base_status : MockMqttBase → BaseStatus
base_status b = record {
  base_metadata = b.base_metadata;
  local_ip = "127.0.0.1";
  local_host_name = "localhost";
  port = pos 0;
  state = b.curr_state;
}

abbrev pub health_response : MockMqttBase → GenericArkResponseBase HealthInfo
health_response b = record {
  code = "SUCCESS";
  payload = record {
    health_data = record {
      java_max_metaspace = pos 1024;
      java_committed_metaspace = pos 1024;
      master_biz_state = b.curr_state;
    };
  };
  message = "";
}

abbrev pub all_biz_response : MockMqttBase → GenericArkResponseBase (List ArkBizInfo)
all_biz_response b = record {
  code = "SUCCESS";
  payload = map (λ entry. entry.1) b.biz_infos;
  message = "";
}

module _ (j : Json) {W : Type 0} (paho : Paho W) (now : W → ℤ) where
  -- Pub with the quality of service 1, its error ignored.
  unfoldable pub publish_to : String → String → Running W → Running W
  unfolding publish
  publish_to topic content r = record r { world = (publish paho topic qos1 content r.world).1 }

  stamped : {T : Type 0} → Running W → T → ArkMqttMsg T
  stamped r payload = record { publish_timestamp = now r.world; payload = payload }

  unfoldable pub send_heart_beat : Running W → Running W
  unfolding publish_to stamped
  send_heart_beat r =
      publish_to (heart_topic r.base) (j.write_heart_beat (stamped r (base_status r.base))) r

  -- One round of the timed task of Start.
  unfoldable pub upload : Running W → Running W
  unfolding send_heart_beat
  upload r = if r.base.reachable then send_heart_beat r else r

  unfoldable pub set_curr_state : String → Running W → Running W
  unfolding send_heart_beat
  set_curr_state state r =
      send_heart_beat (record r { base = record r.base { curr_state = state } })

  unfoldable pub process_health : Running W → Running W
  unfolding publish_to stamped
  process_health r =
      publish_to (base_health_topic r.base.env r.base.base_metadata.identity)
        (j.write_health (stamped r (health_response r.base))) r

  unfoldable pub process_query_all_biz : Running W → Running W
  unfolding publish_to stamped
  process_query_all_biz r =
      publish_to (base_all_biz_topic r.base.env r.base.base_metadata.identity)
        (j.write_all_biz (stamped r (all_biz_response r.base))) r

  -- An installation is only noted: SetBizState answers it later.
  unfoldable pub process_install_biz : String → Running W → Running W
  unfolding lookup
  process_install_biz msg r =
      let request = j.parse_biz_model msg in
      let known = lookup (get_biz_identity request) r.base.biz_infos in
      record r {
        base = record r.base { biz_infos = add_unless_known known request r.base.biz_infos };
      }

  unfoldable pub publish_operation : BizOperationResponse → Running W → Running W
  unfolding publish_to stamped
  publish_operation d r =
      publish_to (base_biz_operation_response_topic r.base.env r.base.base_metadata.identity)
        (j.write_operation (stamped r d)) r

  unfoldable pub process_uninstall_biz : String → Running W → Running W
  unfolding delete publish_operation
  process_uninstall_biz msg r =
      let request = j.parse_biz_model msg in
      publish_operation
        (operation_success command_uninstall_biz request.biz_name request.biz_version)
        (record r {
          base = record r.base { biz_infos = delete (get_biz_identity request) r.base.biz_infos };
        })

  unfoldable pub run_task : Task → Running W → Running W
  unfolding process_health process_query_all_biz process_install_biz process_uninstall_biz
  run_task health r = process_health r
  run_task query_all_biz r = process_query_all_biz r
  run_task (install_biz msg) r = process_install_biz msg r
  run_task (uninstall_biz msg) r = process_uninstall_biz msg r

  unfoldable pub process_baseline : String → Running W → Running W
  unfolding put_baseline
  process_baseline msg r =
      let models = j.parse_biz_models msg in
      record r {
        base = record r.base {
          biz_infos = put_baseline models r.base.biz_infos;
          baseline = models;
        };
      }

  unfoldable pub publish_simple_biz : String → Running W → Running W
  unfolding publish_to stamped simple_biz_info
  publish_simple_biz state r =
      publish_to (base_simple_biz_topic r.base.env r.base.base_metadata.identity)
        (j.write_simple_biz
          (stamped r (map (λ entry. simple_biz_info state entry.1) r.base.biz_infos)))
        r

  unfoldable pub set_biz_state : String → String → String → String → Running W → Running W
  unfolding lookup with_state publish_operation publish_simple_biz
  set_biz_state biz_identity state reason message r =
      let info =
        with_state state reason message (info_or_zero (lookup biz_identity r.base.biz_infos)) in
      let written = record r {
        base = record r.base { biz_infos = insert biz_identity info r.base.biz_infos };
      } in
      publish_simple_biz state (
        if state == "ACTIVATED"
        then publish_operation
            (operation_success command_install_biz info.biz_name info.biz_version) written
        else written)

  unfoldable pub query_baseline : Running W → Running W
  unfolding publish_to stamped
  query_baseline r =
      publish_to (query_baseline_topic r.base) (j.write_metadata (stamped r r.base.base_metadata)) r

  -- The same content on four topics, one after the other.
  publish_everywhere : String → Running W → Running W
  unfolding publish_to
  publish_everywhere content r =
      let b = r.base in
      publish_to (query_baseline_topic b) content (
        publish_to (heart_topic b) content (
          publish_to (base_all_biz_topic b.env b.base_metadata.identity) content
            (publish_to (base_health_topic b.env b.base_metadata.identity) content r)))

  unfoldable pub send_invalid_message : Running W → Running W
  unfolding publish_everywhere
  send_invalid_message = publish_everywhere ""

  unfoldable pub send_timeout_message : Running W → Running W
  unfolding publish_everywhere
  send_timeout_message = publish_everywhere "{\"publishTimestamp\":0}"

  abbrev failed_content : ℤ → String
  failed_content time = "{\"publishTimestamp\":" <> itoa time <> ", \"data\" : {\"code\":\"\"}}"

  unfoldable pub send_failed_message : Running W → Running W
  unfolding publish_to itoa
  send_failed_message r =
      let b = r.base in
      let sent =
        publish_to (base_health_topic b.env b.base_metadata.identity) (failed_content (now r.world))
          r in
      publish_to (base_all_biz_topic b.env b.base_metadata.identity)
        (failed_content (now sent.world)) sent

  -- The part of Start before it waits: the client exists, and the error of connecting is ignored.
  unfoldable pub start : Running W → Running W
  unfolding send_heart_beat connect
  start r = send_heart_beat (record {
    base = record r.base { exited = false; curr_state = "ACTIVATED" };
    world = (connect paho r.world).1;
  })

  -- What Start does on its exit; the end of the context leaves without it.
  unfoldable pub leave : Running W → Running W
  unfolding set_curr_state disconnect
  leave r =
      let gone = set_curr_state "DEACTIVATED" r in
      record gone { world = disconnect paho gone.world }
