-- ===== src/HttpTunnel/Responses.antt =====
-- The callbacks for the answers of a base. `now` reads the clock.
use module_controller.Prelude.{String, ◌==◌, ◌<>◌, List, if◌then◌else◌}
use module_controller.Prelude.Int.{ℤ}
use module_controller.Go.Effect.{Go, returns}
use module_controller.Platform.{Platform}
use module_controller.Platform.Ark.{ArkBizInfo, HealthInfo, GenericArkResponseBase}
use module_controller.Platform.Vnode.{BizStatusData}
use module_controller.Model.{BizOperationResponse, command_install_biz, command_uninstall_biz}
use module_controller.Utils.{
  convert_health_data_to_node_status, translate_biz_infos_to_container_statuses, get_biz_identity,
}
use module_controller.Tunnel.{call_both, call_if_set_both}
use module_controller.HttpTunnel.{HttpTunnel}

-- The status after an installation that succeeded, and after an operation that did not.
abbrev pub installed_status : Platform → ℤ → BizOperationResponse → BizStatusData
installed_status p now d = record {
  key = get_biz_identity d.biz_name d.biz_version;
  name = d.biz_name;
  state = p.biz_state_activated;
  change_time = now;
  reason = d.biz_name <> ":" <> d.biz_version <> " " <> d.command <> " succeed";
  message = d.response.payload.message;
}

abbrev pub broken_status : Platform → ℤ → BizOperationResponse → BizStatusData
broken_status p now d = record {
  key = get_biz_identity d.biz_name d.biz_version;
  name = d.biz_name;
  state = p.biz_state_broken;
  change_time = now;
  reason = d.response.code;
  message = d.response.message;
}

module _ (p : Platform) {W : Type 0} (now : W → ℤ) where
  unfoldable pub health_msg_callback :
      HttpTunnel W → String → GenericArkResponseBase HealthInfo → Go W Unit
  health_msg_callback h node_id d w =
      if d.code == "SUCCESS"
      then call_if_set_both h.callbacks.on_base_status_arrived (p.format_node_name node_id h.env)
          (convert_health_data_to_node_status p d.payload.health_data) w
      else (returns tt, w)

  unfoldable pub all_biz_msg_callback :
      HttpTunnel W → String → GenericArkResponseBase (List ArkBizInfo) → Go W Unit
  all_biz_msg_callback h node_id d w =
      if d.code == "SUCCESS"
      then call_if_set_both h.callbacks.on_all_biz_status_arrived (p.format_node_name node_id h.env)
          (translate_biz_infos_to_container_statuses d.payload (now w)) w
      else (returns tt, w)

  -- onOneBizDataArrived is called without a test for nil. A success of any command but install and
  -- uninstall falls through to the report of a broken biz.
  unfoldable pub biz_operation_response_callback :
      HttpTunnel W → String → BizOperationResponse → Go W Unit
  biz_operation_response_callback h node_id d w =
      let node_name = p.format_node_name node_id h.env in
      let report = h.callbacks.on_single_biz_status_arrived in
      let broken = call_both report node_name (broken_status p (now w) d) w in
      if d.response.code == "SUCCESS"
      then (if d.command == command_install_biz
          then call_both report node_name (installed_status p (now w) d) w
          else if d.command == command_uninstall_biz
          then (returns tt, w)
          else broken)
      else broken
