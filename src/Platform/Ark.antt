-- ===== src/Platform/Ark.antt =====
-- The data types of arkctl (service/ark), with the fields that the program uses.
use module_controller.Prelude.{String, List}
use module_controller.Prelude.Int.{ℤ}

pub record BizModel : Type 0 where
  pub biz_name : String
  pub biz_version : String
  pub biz_url : String
  pub biz_model_version : String

pub record ArkBizStateRecord : Type 0 where
  pub change_time : ℤ
  pub state : String
  pub reason : String
  pub message : String

pub record ArkBizInfo : Type 0 where
  pub biz_name : String
  pub biz_version : String
  pub biz_state : String
  pub biz_state_records : List ArkBizStateRecord

-- The fields of its ArkClientResponse, and ElapsedSpace.
pub record ArkResponseData : Type 0 where
  pub code : String
  pub message : String
  pub biz_infos : List ArkBizInfo
  pub elapsed_space : ℤ

-- The map from a URL to its response, in the order of the iteration.
pub record ArkBatchInstallResponse : Type 0 where
  pub biz_url_to_response : List (String × ArkResponseData)

pub record HealthData : Type 0 where
  pub java_max_metaspace : ℤ
  pub java_committed_metaspace : ℤ
  pub master_biz_state : String

pub record HealthInfo : Type 0 where
  pub health_data : HealthData

pub record GenericArkResponseBase {ℓ} (T : Type ℓ) : Type ℓ where
  pub code : String
  pub payload : T
  pub message : String
