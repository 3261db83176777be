-- ===== src/ReportServer.antt =====
-- report_server/server.go: the handler of /log, which forwards a log request to the webhooks.
pub mod Laws
mod Tests
use module_controller.Prelude.{
  ℕ, String, Bool, true, false, Option, none, some, List, [], ◌∷◌, ◌==◌, ◌<>◌, if◌then◌else◌,
}
use module_controller.Go.Effect.{Error, Result, ok, err}
use module_controller.Go.Strings.{split}

-- TimeUsed is left out, since the handler does not read it; the labels are in the order of the
-- iteration.
pub record LogRequest : Type 0 where
  pub trace_id : String
  pub scene : String
  pub event : String
  pub result : String
  pub message : String
  pub code : String
  pub labels : List (String × String)

-- MarkDown is the pair of fields with the prefix.
pub record DingtalkMessage : Type 0 where
  pub msg_type : String
  pub markdown_title : String
  pub markdown_text : String

abbrev format_entries : List (String × String) → String
format_entries [] = "]"
format_entries ((key, value) ∷ rest) = key <> ": " <> value <> "\n" <> format_entries rest

unfoldable pub format_map : List (String × String) → String
format_map input = "[" <> format_entries input

-- encoding/json, and http.Post and the log on the state `W` of everything outside.
pub record Outside (W : Type 0) : Type 0 where
  pub unmarshal : String → Result LogRequest
  pub marshal : DingtalkMessage → Result String
  pub post : String → String → W → Option Error × W
  pub log_error : Error → W → W

pub record Reply : Type 0 where
  pub status : ℕ
  pub content : String

-- http.Error ends the text with a new line.
abbrev pub http_error : ℕ → String → Reply
http_error status text = record { status = status; content = text <> "\n" }

unfoldable pub dingtalk_message : LogRequest → DingtalkMessage
unfolding format_map
dingtalk_message r = record {
  msg_type = "markdown";
  markdown_title = "Log Notification";
  markdown_text =
      "## MC告警\n\n- **Trace ID**: "
      <> r.trace_id
      <> "\n- **工单类型**: "
      <> r.scene
      <> "\n- **节点**: "
      <> r.event
      <> "\n- **结果**: "
      <> r.result
      <> "\n- **失败信息**: "
      <> r.message
      <> "\n- **错误代码**: "
      <> r.code
      <> "\n- **部署信息**: "
      <> format_map r.labels;
}

module _ {W : Type 0} (o : Outside W) where
  after_post : Option Error × W → W
  after_post (none, w) = w
  after_post (some e, w) = o.log_error e w

  -- One round of the loop for a webhook that is not empty.
  unfoldable pub send : String → String → W → W
  unfolding after_post
  send json_message webhook w = after_post (o.post webhook json_message w)

  unfoldable pub send_all : List String → String → W → W
  unfolding send
  send_all [] json_message w = w
  send_all (webhook ∷ rest) json_message w =
      send_all rest json_message (if webhook == "" then w else send json_message webhook w)

  unfoldable pub marshalled : List String → Result String → W → Reply × W
  unfolding send_all
  marshalled webhooks (err e) w = (http_error 500 "Internal server error", w)
  marshalled webhooks (ok json_message) w =
      (record { status = 200; content = "" }, send_all webhooks json_message w)

  unfoldable pub decoded : List String → Result LogRequest → W → Reply × W
  unfolding marshalled dingtalk_message
  decoded webhooks (err e) w = (http_error 400 "Bad request", w)
  decoded webhooks (ok request) w = marshalled webhooks (o.marshal (dingtalk_message request)) w

  unfoldable pub read : List String → Result String → W → Reply × W
  unfolding decoded
  read webhooks (err e) w = (http_error 400 "Bad request", w)
  read webhooks (ok body) w = decoded webhooks (o.unmarshal body) w

  -- The global list of webhooks is the first argument.
  unfoldable pub log_handler : List String → String → Result String → W → Reply × W
  unfolding read
  log_handler webhooks method body w =
      if method == "POST" then read webhooks body w else (http_error 405 "Method not allowed", w)

-- What InitReportServer keeps as webhooks; `get_env` is virtual-kubelet's utils.GetEnv.
unfoldable pub init_webhooks : (String → String → String) → List String
unfolding split
init_webhooks get_env = split b';' (get_env "REPORT_HOOKS" "")
