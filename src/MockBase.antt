-- ===== src/MockBase.antt =====
-- suite/http and suite/mqtt: the bases that the integration tests run against the tunnels, and the
-- map of installed bizs that both keep.
pub mod Http
pub mod Mqtt
mod Tests
use module_controller.Prelude.{
  String, ◌≡◌, ◌<>◌, some, List, lookup, insert, delete, lookup-insert, lookup-delete, eq_iff,
  arith, if◌then◌else◌, ◌==◌, Bool-cases, inl, inr,
}
use module_controller.Platform.Ark.{BizModel, ArkBizInfo}

unfoldable pub get_biz_identity : BizModel → String
get_biz_identity biz_model = biz_model.biz_name <> ":" <> biz_model.biz_version

abbrev pub BizInfos : Type 0
BizInfos = List (String × ArkBizInfo)

-- A biz is kept under its own name and version.
abbrev pub IsNamed : String → ArkBizInfo → Type 0
IsNamed k info = k ≡ info.biz_name <> ":" <> info.biz_version

pub record IsKeyed (infos : BizInfos) : Type 0 where
  pub named : (k : String) (info : ArkBizInfo) → lookup k infos ≡ some info → IsNamed k info

pub insert-IsKeyed :
    (infos : BizInfos) (k : String) (info : ArkBizInfo)
    → IsKeyed infos
    → IsNamed k info
    → IsKeyed (insert k info infos)
insert-IsKeyed infos k info i n = record {
  named = λ asked found e.
      ground (arith, i.named asked found, n, lookup-insert k asked info infos, eq_iff k asked, e);
}

pub delete-IsKeyed : (infos : BizInfos) (k : String) → IsKeyed infos → IsKeyed (delete k infos)
delete-IsKeyed infos k i = record {
  named = λ asked found e.
      ground (arith, i.named asked found, lookup-delete k asked infos, eq_iff k asked, e);
}
