-- ===== src/MockBase/Http.antt =====
-- suite/http/mock_http_base.go: a base that serves the arklet's commands by HTTP and posts its
-- heartbeats to the tunnel. A handler answers and changes the base; `Running` has the base and the
-- world that its own requests go to.
pub mod Laws
pub mod Network
pub mod Reports
pub mod Discovered
use module_controller.Prelude.{
  String, Bool, true, false, Option, none, some, List, [], ◌∷◌, map, if◌then◌else◌, lookup, insert,
  delete,
}
use module_controller.Prelude.Int.{ℤ, pos}
use module_controller.Go.Effect.{Error, Result, ok, err}
use module_controller.Platform.Ark.{
  BizModel, ArkBizInfo, ArkResponseData, HealthInfo, GenericArkResponseBase,
}
use module_controller.Model.{BaseMetadata, BaseStatus, ArkResponse}
use module_controller.ArkService.{HttpResponse}
use module_controller.MockBase.{get_biz_identity, BizInfos}

-- encoding/json on the messages of the base. A request that does not parse leaves what Unmarshal
-- filled in before its error, which the base ignores.
pub record Json : Type 0 where
  pub parse_biz_model : String → BizModel
  pub write_response : ArkResponse ArkResponseData → String
  pub write_all_biz : GenericArkResponseBase (List ArkBizInfo) → String
  pub write_health : GenericArkResponseBase HealthInfo → String
  pub write_status : BaseStatus → String

pub record MockHttpBase : Type 0 where
  pub env : String
  pub curr_state : String
  pub metadata : BaseMetadata
  pub port : ℤ
  pub biz_infos : BizInfos
  pub baseline : List BizModel
  -- whether the channel `exit` is closed
  pub exited : Bool
  pub reachable : Bool

unfoldable pub new_mock_http_base : String → String → String → String → ℤ → MockHttpBase
new_mock_http_base name cluster_name version env port = record {
  env = env;
  curr_state = "ACTIVATED";
  metadata = record { identity = name; version = version; cluster_name = cluster_name; name = "" };
  port = port;
  biz_infos = [];
  baseline = [];
  exited = false;
  reachable = true;
}

unfoldable pub exit : MockHttpBase → MockHttpBase
exit b = record b { exited = true }

-- What getHeartBeatMsg marshals.
abbrev pub heart_beat : MockHttpBase → BaseStatus
heart_beat b = record {
  base_metadata = b.metadata;
  local_ip = "127.0.0.1";
  local_host_name = "localhost";
  port = b.port;
  state = b.curr_state;
}

-- What getHealthMsg marshals.
abbrev pub health_response : MockHttpBase → GenericArkResponseBase HealthInfo
health_response b = record {
  code = "SUCCESS";
  payload = record {
    health_data = record {
      java_max_metaspace = pos 1024;
      java_committed_metaspace = pos 1024;
      master_biz_state = b.curr_state;
    };
  };
  message = "";
}

-- What getQueryAllBizMsg marshals, in the order of the iteration.
unfoldable pub all_biz_response : MockHttpBase → GenericArkResponseBase (List ArkBizInfo)
all_biz_response b = record {
  code = "SUCCESS";
  payload = map (λ entry. entry.1) b.biz_infos;
  message = "";
}

-- The answer to an install and to an uninstall request.
abbrev pub success_response : MockHttpBase → ArkResponse ArkResponseData
success_response b = record {
  code = "SUCCESS";
  payload = record { code = "SUCCESS"; message = ""; biz_infos = []; elapsed_space = pos 0 };
  message = "";
  error_stack_trace = "";
  base_identity = b.metadata.identity;
}

abbrev pub new_biz_info : BizModel → ArkBizInfo
new_biz_info request = record {
  biz_name = request.biz_name;
  biz_version = request.biz_version;
  biz_state = "ACTIVATED";
  biz_state_records =
      record { change_time = pos 1234; state = "ACTIVATED"; reason = ""; message = "" } ∷ [];
}

abbrev pub add_unless_known : Option ArkBizInfo → BizModel → BizInfos → BizInfos
add_unless_known (some known) request infos = infos
add_unless_known none request infos = insert (get_biz_identity request) (new_biz_info request) infos

-- The handlers that mux registers.
pub data Route : Type 0 where
  health query_all_biz install_biz uninstall_biz : Route

abbrev pub path : Route → String
path health = "health"
path query_all_biz = "queryAllBiz"
path install_biz = "installBiz"
path uninstall_biz = "uninstallBiz"

abbrev pub with_status_ok : String × MockHttpBase → HttpResponse × MockHttpBase
with_status_ok (content, b) = (record { status_code = 200; content = content }, b)

-- The handler writes the status 200 first, so a body that cannot be read gets an empty answer.
abbrev after_read :
    (String → MockHttpBase → String × MockHttpBase)
    → Result String
    → MockHttpBase
    → String × MockHttpBase
after_read process (ok body) b = process body b
after_read process (err e) b = ("", b)

module _ (j : Json) where
  unfoldable pub process_install_biz : String → MockHttpBase → String × MockHttpBase
  unfolding lookup
  process_install_biz msg b =
      let request = j.parse_biz_model msg in
      let known = lookup (get_biz_identity request) b.biz_infos in
      (
        j.write_response (success_response b),
        record b { biz_infos = add_unless_known known request b.biz_infos },
      )

  unfoldable pub process_uninstall_biz : String → MockHttpBase → String × MockHttpBase
  unfolding delete
  process_uninstall_biz msg b =
      let request = j.parse_biz_model msg in
      (
        j.write_response (success_response b),
        record b { biz_infos = delete (get_biz_identity request) b.biz_infos },
      )

  unfoldable pub answer : Route → Result String → MockHttpBase → String × MockHttpBase
  unfolding process_install_biz process_uninstall_biz all_biz_response
  answer health body b = (j.write_health (health_response b), b)
  answer query_all_biz body b = (j.write_all_biz (all_biz_response b), b)
  answer install_biz body b = after_read process_install_biz body b
  answer uninstall_biz body b = after_read process_uninstall_biz body b

  unfoldable pub serve : Route → Result String → MockHttpBase → HttpResponse × MockHttpBase
  unfolding answer
  serve route body b =
      if b.reachable
      then with_status_ok (answer route body b)
      else (record { status_code = 502; content = "" }, b)

pub record Running (W : Type 0) : Type 0 where
  pub base : MockHttpBase
  pub world : W

abbrev pub heart_beat_url : String
heart_beat_url = "http://127.0.0.1:7777/heartbeat"

module _ (j : Json) {W : Type 0} (post : String → String → W → Option Error × W) where
  unfoldable pub post_heart_beat : Running W → Option Error × Running W
  post_heart_beat r =
      let (e, w) = post heart_beat_url (j.write_status (heart_beat r.base)) r.world in
      (e, record r { world = w })

  -- The part of Start before its goroutines take over: the base is live, and one heartbeat is sent.
  unfoldable pub start : Running W → Option Error × Running W
  unfolding post_heart_beat
  start r =
      post_heart_beat
        (record r { base = record r.base { exited = false; curr_state = "ACTIVATED" } })

  -- One round of the timed task.
  unfoldable pub upload : Running W → Running W
  unfolding post_heart_beat
  upload r = if r.base.reachable then (post_heart_beat r).1 else r

  -- What follows the end of the context or the exit; an error is logged.
  unfoldable pub leave : Running W → Running W
  unfolding post_heart_beat
  leave r = (post_heart_beat (record r { base = record r.base { curr_state = "DEACTIVATED" } })).1
