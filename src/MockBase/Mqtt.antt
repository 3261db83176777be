-- ===== src/MockBase/Mqtt.antt =====
-- suite/mqtt/mock_mqtt_base.go: a base that gets its commands by MQTT and publishes what it has.
-- `Running` has the base and the world of its client, paho's. Errors of publishing are ignored. A
-- command starts a goroutine: `process_command` gives its task, which runs at a later time.
pub mod Tasks
pub mod Dispatch
pub mod Laws
pub mod Answers
mod Tests
use module_controller.Prelude.{
  String, Bool, true, false, Option, none, some, List, [], ◌∷◌, ◌++◌, if◌then◌else◌, ◌==◌, insert,
}
use module_controller.Prelude.Int.{pos}
use module_controller.Go.Strings.{split}
use module_controller.Platform.Ark.{BizModel, ArkBizInfo, HealthInfo, GenericArkResponseBase}
use module_controller.Model.{
  ArkMqttMsg, BaseMetadata, BaseStatus, BizOperationResponse, ArkSimpleBizInfoData,
  ArkSimpleAllBizInfoData, command_health, command_query_all_biz, command_install_biz,
  command_uninstall_biz,
}
use module_controller.MockBase.{get_biz_identity, BizInfos}

-- encoding/json on the messages of the base. A payload that does not parse leaves what Unmarshal
-- filled in before its error, which the base ignores.
pub record Json : Type 0 where
  pub parse_biz_model : String → BizModel
  pub parse_biz_models : String → List BizModel
  pub write_heart_beat : ArkMqttMsg BaseStatus → String
  pub write_health : ArkMqttMsg (GenericArkResponseBase HealthInfo) → String
  pub write_all_biz : ArkMqttMsg (GenericArkResponseBase (List ArkBizInfo)) → String
  pub write_operation : ArkMqttMsg BizOperationResponse → String
  pub write_simple_biz : ArkMqttMsg ArkSimpleAllBizInfoData → String
  pub write_metadata : ArkMqttMsg BaseMetadata → String

pub record MockMqttBase : Type 0 where
  pub env : String
  pub curr_state : String
  pub base_metadata : BaseMetadata
  pub biz_infos : BizInfos
  pub baseline : List BizModel
  -- whether the channel `exit` is closed
  pub exited : Bool
  pub reachable : Bool

pub record Running (W : Type 0) : Type 0 where
  pub base : MockMqttBase
  pub world : W

unfoldable pub new_mock_mqtt_base : String → String → String → String → MockMqttBase
new_mock_mqtt_base base_name cluster_name version env = record {
  env = env;
  curr_state = "ACTIVATED";
  base_metadata = record {
    identity = base_name;
    version = version;
    cluster_name = cluster_name;
    name = "";
  };
  biz_infos = [];
  baseline = [];
  exited = false;
  reachable = true;
}

unfoldable pub exit : MockMqttBase → MockMqttBase
exit b = record b { exited = true }

-- What a command makes the base do, with the payload where it has one.
pub data Task : Type 0 where
  health query_all_biz : Task
  install_biz uninstall_biz : String → Task

-- The last field of a topic; Split never returns an empty slice.
abbrev pub last_of : List String → String
last_of [] = ""
last_of (s ∷ []) = s
last_of (s ∷ t ∷ rest) = last_of (t ∷ rest)

unfoldable pub task_of : String → String → Option Task
task_of command payload =
    if command == command_health
    then some health
    else if command == command_install_biz
    then some (install_biz payload)
    else if command == command_uninstall_biz
    then some (uninstall_biz payload)
    else if command == command_query_all_biz
    then some query_all_biz
    else none

unfoldable pub process_command : String → String → MockMqttBase → Option Task
unfolding task_of split
process_command topic payload b =
    if b.reachable then task_of (last_of (split b'/' topic)) payload else none

-- What the base keeps of a biz of its baseline, and of one that it was told to install.
abbrev pub baseline_biz_info : BizModel → ArkBizInfo
baseline_biz_info m = record {
  biz_name = m.biz_name;
  biz_version = m.biz_version;
  biz_state = "ACTIVATED";
  biz_state_records = [];
}

abbrev pub resolved_biz_info : BizModel → ArkBizInfo
resolved_biz_info m = record {
  biz_name = m.biz_name;
  biz_version = m.biz_version;
  biz_state = "RESOLVED";
  biz_state_records = [];
}

-- The loop of processBaseline.
unfoldable pub put_baseline : List BizModel → BizInfos → BizInfos
put_baseline [] infos = infos
put_baseline (m ∷ rest) infos =
    put_baseline rest (insert (get_biz_identity m) (baseline_biz_info m) infos)

abbrev pub add_unless_known : Option ArkBizInfo → BizModel → BizInfos → BizInfos
add_unless_known (some known) request infos = infos
add_unless_known none request infos =
    insert (get_biz_identity request) (resolved_biz_info request) infos

-- The answer to an operation, for the biz that it is about.
abbrev pub operation_success : String → String → String → BizOperationResponse
operation_success command biz_name biz_version = record {
  command = command;
  biz_name = biz_name;
  biz_version = biz_version;
  biz_model_version = "";
  response = record {
    code = "SUCCESS";
    payload = record { code = "SUCCESS"; message = ""; biz_infos = []; elapsed_space = pos 0 };
    message = "";
    error_stack_trace = "";
    base_identity = "";
  };
}

-- The single-valued read `b.BizInfos[bizIdentity]`.
abbrev pub info_or_zero : Option ArkBizInfo → ArkBizInfo
info_or_zero (some info) = info
info_or_zero none = record {
  biz_name = "";
  biz_version = "";
  biz_state = "";
  biz_state_records = [];
}

-- The info with the state and one more record.
unfoldable pub with_state : String → String → String → ArkBizInfo → ArkBizInfo
with_state state reason message info = record info {
  biz_state = state;
  biz_state_records =
      info.biz_state_records
      ++ record { change_time = pos 1234; state = state; reason = reason; message = message } ∷ [];
}

abbrev state_index : String → String
state_index state = if state == "ACTIVATED" then "3" else "4"

-- One entry of the simple data: the index is that of the state that was set, for every biz.
unfoldable pub simple_biz_info : String → ArkBizInfo → ArkSimpleBizInfoData
simple_biz_info state info = record {
  name = info.biz_name;
  version = info.biz_version;
  state = state_index state;
  latest_state_record = record { change_time = pos 0; state = ""; reason = ""; message = "" };
}
