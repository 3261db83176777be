-- ===== src/Utils.antt =====
-- common/utils/utils.go: topics, expiry and the conversions between the bases' messages and the
-- virtual kubelet's data. The children prove their properties.
pub mod Unreachable
pub mod Topics
pub mod LatestState
pub mod NodeInfoRoundTrip
pub mod Expiry
mod Tests
use mathlib.Core.Option
use module_controller.Prelude.{
  String, Bool, true, false, ◌&&◌, Option, none, some, List, [], ◌∷◌, ◌++◌, not, ◌==◌, ◌<>◌, index,
  insert, if◌then◌else◌,
}
use module_controller.Prelude.Int.{ℤ, pos, negsuc, ◌+ℤ◌, ◌-ℤ◌, ltb_ℤ, leb_ℤ, eqb_ℤ, int64}
use module_controller.Go.Strings.{split, to_upper, equal_fold}
use module_controller.Go.Strconv.{itoa, atoi}
use module_controller.Platform.{Platform}
use module_controller.Platform.Kube.{EnvVar, Container, Labels}
use module_controller.Platform.Ark.{BizModel, ArkBizStateRecord, ArkBizInfo, HealthData}
use module_controller.Platform.Vnode.{NodeInfo, NodeResource, NodeStatusData, BizStatusData}
use module_controller.Model.{
  BaseMetadata, BaseStatus, QueryBaselineRequest, ArkSimpleBizInfoData, ArkSimpleAllBizInfoData,
  label_key_of_tunnel_port, base_baseline_response_topic,
}

abbrev second_or_empty : List String → String
second_or_empty [] = ""
second_or_empty (a ∷ []) = ""
second_or_empty (a ∷ b ∷ rest) = b

unfoldable pub get_base_identity_from_topic : String → String
unfolding split
get_base_identity_from_topic topic = second_or_empty (split b'/' topic)

-- The clock is the first argument; the sum wraps around as int64 does.
unfoldable pub expired : ℤ → ℤ → ℤ → Bool
unfolding int64 ◌+ℤ◌
expired now publish_timestamp max_live_milli_sec =
    leb_ℤ (int64 (publish_timestamp +ℤ max_live_milli_sec)) now

abbrev pub format_arklet_command_topic : String → String → String → String
format_arklet_command_topic env node_id command =
    "koupleless_" <> env <> "/" <> node_id <> "/" <> command

abbrev pub format_baseline_response_topic : String → String → String
format_baseline_response_topic env node_id = base_baseline_response_topic env node_id

-- The loop with its `break`.
first_biz_version : List EnvVar → String
first_biz_version [] = ""
first_biz_version (e ∷ rest) = if e.name == "BIZ_VERSION" then e.value else first_biz_version rest

unfoldable pub get_biz_version_from_container : Container → String
unfolding first_biz_version
get_biz_version_from_container container = first_biz_version container.env

abbrev pub get_biz_identity : String → String → String
get_biz_identity biz_name biz_version = biz_name <> ":" <> biz_version

unfoldable pub convert_base_metadata_to_baseline_query : BaseMetadata → QueryBaselineRequest
convert_base_metadata_to_baseline_query d = record {
  identity = d.identity;
  cluster_name = d.cluster_name;
  version = d.version;
}

pub record Latest : Type 0 where
  pub time : ℤ
  pub reason : String
  pub message : String

abbrev newer : Latest → ArkBizStateRecord → Latest
newer l r =
    if ltb_ℤ l.time r.change_time
    then record { time = r.change_time; reason = r.reason; message = r.message }
    else l

latest_from : Latest → List ArkBizStateRecord → Latest
latest_from l [] = l
latest_from l (r ∷ rest) = latest_from (newer l r) rest

unfoldable pub get_latest_state : List ArkBizStateRecord → Latest
unfolding latest_from
get_latest_state records = latest_from (record { time = pos 0; reason = ""; message = "" }) records

-- The status of one biz, given its latest state.
unfoldable pub status_data : ℤ → ArkBizInfo → Latest → BizStatusData
status_data change_timestamp info l =
    let touched = not (eqb_ℤ l.time (pos 0)) in
    record {
      key = get_biz_identity info.biz_name info.biz_version;
      name = info.biz_name;
      state = info.biz_state;
      change_time = if touched then l.time else change_timestamp;
      reason = if touched then l.reason else "";
      message = if touched then l.message else "";
    }

-- One round of the loop of TranslateBizInfosToContainerStatuses.
unfoldable pub translate_biz_info : ℤ → ArkBizInfo → BizStatusData
unfolding status_data
translate_biz_info change_timestamp info =
    status_data change_timestamp info (get_latest_state info.biz_state_records)

unfoldable pub translate_biz_infos_to_container_statuses : List ArkBizInfo → ℤ → List BizStatusData
unfolding translate_biz_info
translate_biz_infos_to_container_statuses [] t = []
translate_biz_infos_to_container_statuses (info ∷ rest) t =
    translate_biz_info t info ∷ translate_biz_infos_to_container_statuses rest t

unfoldable pub translate_simple_biz_data_to_ark_biz_info : ArkSimpleBizInfoData → Option ArkBizInfo
translate_simple_biz_data_to_ark_biz_info d = some (record {
  biz_name = d.name;
  biz_version = d.version;
  biz_state = d.state;
  biz_state_records = d.latest_state_record ∷ [];
})

abbrev append_unless_nil : Option ArkBizInfo → List ArkBizInfo → List ArkBizInfo
append_unless_nil none rest = rest
append_unless_nil (some info) rest = info ∷ rest

unfoldable pub translate_simple_biz_data_to_biz_infos : ArkSimpleAllBizInfoData → List ArkBizInfo
unfolding translate_simple_biz_data_to_ark_biz_info
translate_simple_biz_data_to_biz_infos [] = []
translate_simple_biz_data_to_biz_infos (d ∷ rest) =
    append_unless_nil (translate_simple_biz_data_to_ark_biz_info d)
      (translate_simple_biz_data_to_biz_infos rest)

abbrev pub port_or_default : Option ℤ → ℤ
port_or_default none = pos 1238
port_or_default (some port) = port

module _ (p : Platform) where
  unfoldable pub translate_core_v1_container_to_biz_model : Container → BizModel
  unfolding get_biz_version_from_container
  translate_core_v1_container_to_biz_model container = record {
    biz_name = container.name;
    biz_version = get_biz_version_from_container container;
    biz_url = p.file_url container.image;
    biz_model_version = "";
  }

  unfoldable pub convert_base_status_to_node_info : BaseStatus → String → NodeInfo
  unfolding equal_fold insert
  convert_base_status_to_node_info d env = record {
    metadata = record {
      name = p.format_node_name d.base_metadata.identity env;
      base_name = d.base_metadata.name;
      cluster_name = d.base_metadata.cluster_name;
      version = d.base_metadata.version;
    };
    network_info = record { node_ip = d.local_ip; host_name = d.local_host_name };
    custom_labels =
        if not (eqb_ℤ d.port (pos 0)) then insert label_key_of_tunnel_port (itoa d.port) [] else [];
    state =
        if equal_fold d.state "ACTIVATED" then p.node_state_activated else p.node_state_deactivated;
  }

  -- The zero value of a quantity is written "0".
  unfoldable pub convert_health_data_to_node_status : HealthData → NodeStatusData
  unfolding to_upper ◌-ℤ◌ int64
  convert_health_data_to_node_status d =
      let valid = not (eqb_ℤ d.java_max_metaspace (negsuc 0)) in
      record {
        resources =
            (
              p.resource_memory,
              record {
                capacity =
                    if valid
                    then p.convert_byte_num_to_resource_quantity d.java_max_metaspace
                    else "0";
                allocatable =
                    if valid && not (eqb_ℤ d.java_committed_metaspace (negsuc 0))
                    then p.convert_byte_num_to_resource_quantity
                        (int64 (d.java_max_metaspace -ℤ d.java_committed_metaspace))
                    else "0";
              },
            )
            ∷ [];
        node_state = to_upper p.upper_table d.master_biz_state;
      }

  unfoldable pub convert_base_status_from_node_info : NodeInfo → BaseStatus
  unfolding index
  convert_base_status_from_node_info d = record {
    base_metadata = record {
      identity = p.extract_node_id_from_node_name d.metadata.name;
      version = d.metadata.version;
      cluster_name = d.metadata.cluster_name;
      name = "";
    };
    local_ip = d.network_info.node_ip;
    local_host_name = d.network_info.host_name;
    port = port_or_default (atoi (index label_key_of_tunnel_port d.custom_labels));
    state = d.state;
  }
