-- ===== src/ArkService.antt =====
-- module_tunnels/koupleless_http_tunnel/ark_service/ark_service.go: the requests to the arklet of a
-- base.
pub mod Outcomes
use module_controller.Prelude.{ℕ, String, Option, none, some, eqb, ◌<>◌, if◌then◌else◌, List, []}
use module_controller.Prelude.Int.{ℤ, pos}
use module_controller.Go.Effect.{Error, message}
use module_controller.Go.Strconv.{itoa}
use module_controller.Platform.Ark.{
  BizModel, ArkBizInfo, ArkResponseData, HealthData, HealthInfo, GenericArkResponseBase,
}
use module_controller.Model.{ArkResponse}

-- What is posted: the constant `{}`, or an install or uninstall request with its biz.
pub data Body : Type 0 where
  braces : Body
  biz : BizModel → Body

pub record HttpResponse : Type 0 where
  pub status_code : ℕ
  pub content : String

-- resty's Post, and json.Unmarshal into each response type. Unmarshal may fill a value in part and
-- still return an error.
pub record Client (W : Type 0) : Type 0 where
  pub post : String → Body → W → (Option Error × Option HttpResponse) × W
  pub unmarshal_biz : String → ArkResponse ArkResponseData × Option Error
  pub unmarshal_all_biz : String → GenericArkResponseBase (List ArkBizInfo) × Option Error
  pub unmarshal_health : String → GenericArkResponseBase HealthInfo × Option Error

abbrev pub zero_biz_response : ArkResponse ArkResponseData
zero_biz_response = record {
  code = "";
  payload = record { code = ""; message = ""; biz_infos = []; elapsed_space = pos 0 };
  message = "";
  error_stack_trace = "";
  base_identity = "";
}

abbrev pub zero_all_biz_response : GenericArkResponseBase (List ArkBizInfo)
zero_all_biz_response = record { code = ""; payload = []; message = "" }

abbrev pub zero_health_response : GenericArkResponseBase HealthInfo
zero_health_response = record {
  code = "";
  payload = record {
    health_data = record {
      java_max_metaspace = pos 0;
      java_committed_metaspace = pos 0;
      master_biz_state = "";
    };
  };
  message = "";
}

-- The checks that follow each request: transport error, missing response, status, decoding.
unfoldable pub checked {ℓ} :
    {T : Type ℓ}
    → T
    → (String → T × Option Error)
    → Option Error
    → Option HttpResponse
    → T × Option Error
unfolding itoa
checked zero_value unmarshal (some e) r = (zero_value, some e)
checked zero_value unmarshal none none =
    (zero_value, some (message "received nil response from the server"))
checked zero_value unmarshal none (some r) =
    if eqb r.status_code 200
    then unmarshal r.content
    else (zero_value, some (message ("response status: " <> itoa (pos r.status_code))))

abbrev pub url : String → ℤ → String → String
url base_ip port command = "http://" <> base_ip <> ":" <> itoa port <> "/" <> command

module _ {W : Type 0} (c : Client W) where
  unfoldable pub install_biz :
      BizModel → String → ℤ → W → (ArkResponse ArkResponseData × Option Error) × W
  unfolding checked
  install_biz req base_ip port w =
      let (r, w') = c.post (url base_ip port "installBiz") (biz req) w in
      (checked zero_biz_response c.unmarshal_biz r.0 r.1, w')

  unfoldable pub uninstall_biz :
      BizModel → String → ℤ → W → (ArkResponse ArkResponseData × Option Error) × W
  unfolding checked
  uninstall_biz req base_ip port w =
      let (r, w') = c.post (url base_ip port "uninstallBiz") (biz req) w in
      (checked zero_biz_response c.unmarshal_biz r.0 r.1, w')

  unfoldable pub query_all_biz :
      String → ℤ → W → (GenericArkResponseBase (List ArkBizInfo) × Option Error) × W
  unfolding checked
  query_all_biz base_ip port w =
      let (r, w') = c.post (url base_ip port "queryAllBiz") braces w in
      (checked zero_all_biz_response c.unmarshal_all_biz r.0 r.1, w')

  unfoldable pub health : String → ℤ → W → (GenericArkResponseBase HealthInfo × Option Error) × W
  unfolding checked
  health base_ip port w =
      let (r, w') = c.post (url base_ip port "health") braces w in
      (checked zero_health_response c.unmarshal_health r.0 r.1, w')
