-- ===== src/HttpTunnel/Commands.antt =====
-- FetchHealthData, QueryAllBizStatusData, StartBiz and StopBiz. Each
-- returns its error, none if it is nil.
pub mod Laws
pub mod Queries
use module_controller.Prelude.{
  String, Bool, true, false, Option, none, some, List, ◌∷◌, if◌then◌else◌,
}
use module_controller.Prelude.Int.{ℤ}
use module_controller.Go.Effect.{Error, Outcome, Go, returns, pure, ◌>>=◌, ◌>>◌}
use module_controller.Platform.{Platform}
use module_controller.Platform.Kube.{Container}
use module_controller.Platform.Ark.{
  BizModel, ArkBizInfo, ArkResponseData, HealthInfo, GenericArkResponseBase,
}
use module_controller.Model.{
  BaseStatus, ArkResponse, BizOperationResponse, command_install_biz, command_uninstall_biz,
}
use module_controller.Utils.{translate_core_v1_container_to_biz_model}
use module_controller.ArkService.{Client, install_biz, uninstall_biz, query_all_biz, health}
use module_controller.HttpTunnel.{HttpTunnel}
use module_controller.HttpTunnel.Nodes.{find_base, network_info_not_found}
use module_controller.HttpTunnel.Responses.{
  health_msg_callback, all_biz_msg_callback, biz_operation_response_callback,
}

-- The biz model of a container with the pod key as its model version.
abbrev pub model_of : Platform → String → Container → BizModel
model_of p pod_key container = record (translate_core_v1_container_to_biz_model p container) {
  biz_model_version = pod_key;
}

abbrev pub operation_response :
    String → BizModel → ArkResponse ArkResponseData → BizOperationResponse
operation_response command biz response = record {
  command = command;
  biz_name = biz.biz_name;
  biz_version = biz.biz_version;
  biz_model_version = biz.biz_model_version;
  response = response;
}

-- queryAllBizLock, queryAllBizDataOutdated, and the nodes whose queries were started again, the latest
-- first.
pub record QueryState : Type 0 where
  pub locked : Bool
  pub outdated : Bool
  pub restarted : List String

module _ (p : Platform) {W : Type 0} (now : W → ℤ) (client : Client W) where
  after_health :
      HttpTunnel W → String → GenericArkResponseBase HealthInfo × Option Error → Go W (Option Error)
  after_health h id (d, some e) = pure (some e)
  after_health h id (d, none) = health_msg_callback p now h id d >> pure none

  fetch_health : HttpTunnel W → String → Option BaseStatus → Go W (Option Error)
  unfolding after_health
  fetch_health h id none w = (returns (some network_info_not_found), w)
  fetch_health h id (some base) w =
      let (r, w') = health client base.local_ip base.port w in after_health h id r w'

  unfoldable pub fetch_health_data : HttpTunnel W → String → Go W (Option Error)
  unfolding fetch_health
  fetch_health_data h node_name =
      let id = p.extract_node_id_from_node_name node_name in fetch_health h id (find_base h id)

  unfoldable pub after_all_biz :
      HttpTunnel W
      → String
      → GenericArkResponseBase (List ArkBizInfo) × Option Error
      → Go W (Option Error)
  after_all_biz h id (d, some e) = pure (some e)
  after_all_biz h id (d, none) = all_biz_msg_callback p now h id d >> pure none

  unfoldable pub query_biz : HttpTunnel W → String → Option BaseStatus → Go W (Option Error)
  unfolding after_all_biz
  query_biz h id none w = (returns (some network_info_not_found), w)
  query_biz h id (some base) w =
      let (r, w') = query_all_biz client base.local_ip base.port w in after_all_biz h id r w'

  -- The body of QueryAllBizStatusData, between the lock and the deferred function.
  unfoldable pub query_locked : HttpTunnel W → String → Go W (Option Error)
  unfolding query_biz
  query_locked h node_name =
      let id = p.extract_node_id_from_node_name node_name in query_biz h id (find_base h id)

  -- The deferred function: it unlocks, and starts the query again if the flag is set.
  abbrev pub unlocked : String → Bool → QueryState → QueryState
  unlocked node_name missed q = record {
    locked = false;
    outdated = missed;
    restarted = if missed then node_name ∷ q.restarted else q.restarted;
  }

  -- `missed` says whether another call failed to lock, and set the flag, after this one cleared it
  -- and before its deferred function reads it. Every interleaving is in QueryLock.antt.
  unfoldable pub query_all_biz_status_data :
      HttpTunnel W → String → Bool → QueryState → W → Outcome (Option Error) × QueryState × W
  unfolding query_locked
  query_all_biz_status_data h node_name missed q w =
      let (r, w') = query_locked h node_name w in
      if q.locked
      then (returns none, record q { outdated = true }, w)
      else (r, unlocked node_name missed q, w')

  -- The response is reported and the error is returned, whether or not there is one.
  reported : HttpTunnel W → String → BizOperationResponse → Option Error → Go W (Option Error)
  reported h id d e = biz_operation_response_callback p now h id d >> pure e

  start_on : HttpTunnel W → String → BizModel → Option BaseStatus → Go W (Option Error)
  unfolding reported
  start_on h id biz none w = (returns (some network_info_not_found), w)
  start_on h id biz (some base) w =
      let (r, w') = install_biz client biz base.local_ip base.port w in
      reported h id (operation_response command_install_biz biz r.0) r.1 w'

  unfoldable pub start_biz : HttpTunnel W → String → String → Container → Go W (Option Error)
  unfolding start_on
  start_biz h node_name pod_key container =
      let id = p.extract_node_id_from_node_name node_name in
      start_on h id (model_of p pod_key container) (find_base h id)

  stop_on : HttpTunnel W → String → BizModel → Option BaseStatus → Go W (Option Error)
  unfolding reported
  stop_on h id biz none w = (returns (some network_info_not_found), w)
  stop_on h id biz (some base) w =
      let (r, w') = uninstall_biz client biz base.local_ip base.port w in
      reported h id (operation_response command_uninstall_biz biz r.0) r.1 w'

  unfoldable pub stop_biz : HttpTunnel W → String → String → Container → Go W (Option Error)
  unfolding stop_on
  stop_biz h node_name pod_key container =
      let id = p.extract_node_id_from_node_name node_name in
      stop_on h id (model_of p pod_key container) (find_base h id)
