-- ===== src/Utils/Tests.antt =====
-- Runs of the helpers on concrete values.
use module_controller.Prelude.{String, ◌≡◌, refl, arith, none, some, List, [], ◌∷◌, ◌<>◌}
use module_controller.Prelude.Int.{pos}
use module_controller.Go.Effect.{not_found}
use module_controller.Platform.Ark.{ArkBizStateRecord, ArkBizInfo}
use module_controller.Model.{ArkSimpleBizInfoData}
use module_controller.Samples.{platform, base}
use module_controller.Utils.{
  get_latest_state, translate_biz_infos_to_container_statuses, convert_base_status_from_node_info,
  convert_base_status_to_node_info,
}
use module_controller.Utils.LatestState.{Reported, statuses-Reported}
use module_controller.Utils.NodeInfoRoundTrip.{remembered, base_status_round_trip}
use module_controller.Utils.Unreachable.{
  NodeClient, on_base_unreachable, Cleanup, on_base_unreachable-Cleanup,
}

abbrev biz_name : String
biz_name = "biz1"

abbrev biz_version : String
biz_version = "1:0"

abbrev records : List ArkBizStateRecord
records =
    record { change_time = pos 5; state = "ACTIVATED"; reason = "old"; message = "m" }
    ∷ record { change_time = pos 9; state = "ACTIVATED"; reason = "new"; message = "n" }
    ∷ record { change_time = pos 9; state = "ACTIVATED"; reason = "same"; message = "s" }
    ∷ []

latest_time : (get_latest_state records).reason ≡ "new"
unfolding get_latest_state
latest_time = refl

abbrev infos : List ArkBizInfo
infos =
    record {
      biz_name = "biz1";
      biz_version = "1.0";
      biz_state = "ACTIVATED";
      biz_state_records = records;
    }
    ∷ []

statuses-Reported_example :
    Reported (pos 7) infos (translate_biz_infos_to_container_statuses infos (pos 7))
statuses-Reported_example = statuses-Reported (pos 7) infos

abbrev reports : List ArkSimpleBizInfoData
reports =
    record {
      name = "biz1";
      version = "1.0";
      state = "ACTIVATED";
      latest_state_record = record {
        change_time = pos 5;
        state = "ACTIVATED";
        reason = "r";
        message = "m";
      };
    }
    ∷ []

base_status_round_trip_example :
    convert_base_status_from_node_info platform
      (convert_base_status_to_node_info platform base "prod")
    ≡ remembered platform base
base_status_round_trip_example = base_status_round_trip platform base "prod" refl (ground arith)

-- A node that Get finds and that is gone when Delete runs; the world is the log.
abbrev vanishing : NodeClient (List String)
vanishing = record {
  get = λ name w. (none, w);
  delete = λ name w. (some (not_found name), w);
  log_info = λ text w. ("info: " <> text) ∷ w;
  log_error = λ e text w. ("error: " <> text) ∷ w;
}

on_base_unreachable-Cleanup_example :
    Cleanup vanishing "vnode.base1" [] (on_base_unreachable vanishing "vnode.base1" [])
on_base_unreachable-Cleanup_example = on_base_unreachable-Cleanup vanishing "vnode.base1" []
