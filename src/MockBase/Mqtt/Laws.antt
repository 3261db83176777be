-- ===== src/MockBase/Mqtt/Laws.antt =====
-- What the commands do to the bizs of the mock base.
use module_controller.Prelude.{
  String, ◌≡◌, ◌≢◌, refl, ◌∙◌, Option, none, some, List, [], ◌∷◌, ◌==◌, lookup, insert,
  lookup-insert, eq_refl, Bool-cases, inl, inr,
}
use module_controller.Prelude.Int.{ℤ}
use module_controller.Platform.Ark.{BizModel, ArkBizInfo}
use module_controller.MqttClient.{Paho}
use module_controller.MockBase.{get_biz_identity, BizInfos, IsKeyed, insert-IsKeyed, delete-IsKeyed}
use module_controller.MockBase.Mqtt.{
  Json, Running, Task, health, query_all_biz, install_biz, uninstall_biz, baseline_biz_info,
  resolved_biz_info, put_baseline, add_unless_known, info_or_zero, with_state,
}
use module_controller.MockBase.Mqtt.Tasks.{
  run_task, process_health, process_query_all_biz, process_install_biz, process_uninstall_biz,
  process_baseline, set_biz_state, publish_to, publish_operation, publish_simple_biz,
}

put_baseline-IsKeyed :
    (models : List BizModel) (infos : BizInfos)
    → IsKeyed infos
    → IsKeyed (put_baseline models infos)
unfolding put_baseline get_biz_identity
put_baseline-IsKeyed [] infos i = i
put_baseline-IsKeyed (m ∷ rest) infos i =
    put_baseline-IsKeyed rest _ (insert-IsKeyed infos _ (baseline_biz_info m) i refl)

add_unless_known-IsKeyed :
    (m : BizModel) (infos : BizInfos) (known : Option ArkBizInfo)
    → IsKeyed infos
    → IsKeyed (add_unless_known known m infos)
unfolding get_biz_identity
add_unless_known-IsKeyed m infos (some known) i = i
add_unless_known-IsKeyed m infos none i = insert-IsKeyed infos _ (resolved_biz_info m) i refl

-- What happens to the base.
pub data Event : Type 0 where
  ran : Task → Event
  baseline_came : String → Event
  state_set : String → String → String → String → Event

module _ (j : Json) {W : Type 0} (paho : Paho W) (now : W → ℤ) where
  abbrev pub handle : Event → Running W → Running W
  handle (ran task) r = run_task j paho now task r
  handle (baseline_came msg) r = process_baseline j paho now msg r
  handle (state_set k state reason m) r = set_biz_state j paho now k state reason m r

  abbrev pub handle_all : List Event → Running W → Running W
  handle_all [] r = r
  handle_all (e ∷ events) r = handle_all events (handle e r)

  -- SetBizState is for bizs that the base has.
  abbrev pub Fits : Event → Running W → Type 0
  Fits (state_set k state reason m) r =
      (info : ArkBizInfo) × (lookup k r.base.biz_infos ≡ some info)
  Fits _ r = Unit

  run_task-IsKeyed :
      (task : Task) (r : Running W)
      → IsKeyed r.base.biz_infos
      → IsKeyed (run_task j paho now task r).base.biz_infos
  unfolding run_task process_health process_query_all_biz process_install_biz process_uninstall_biz
      publish_to publish_operation
  run_task-IsKeyed health r i = i
  run_task-IsKeyed query_all_biz r i = i
  run_task-IsKeyed (install_biz msg) r i = add_unless_known-IsKeyed _ r.base.biz_infos _ i
  run_task-IsKeyed (uninstall_biz msg) r i = delete-IsKeyed r.base.biz_infos _ i

  -- SetBizState writes one entry, whether or not it publishes a response.
  set_biz_state-infos :
      (k state reason m : String) (r : Running W)
      → (set_biz_state j paho now k state reason m r).base.biz_infos
        ≡ insert k
            (with_state state reason m (info_or_zero (lookup k r.base.biz_infos)))
            r.base.biz_infos
  unfolding set_biz_state publish_operation publish_simple_biz publish_to
  set_biz_state-infos k state reason m r = elim (Bool-cases (state == "ACTIVATED")) [
    | inl active ↦ rw active refl
    | inr other ↦ rw other refl
  ]

  set_biz_state-IsKeyed :
      (k state reason m : String) (r : Running W) (info : ArkBizInfo)
      → lookup k r.base.biz_infos ≡ some info
      → IsKeyed r.base.biz_infos
      → IsKeyed (set_biz_state j paho now k state reason m r).base.biz_infos
  unfolding with_state
  set_biz_state-IsKeyed k state reason m r info e i =
      rw (set_biz_state-infos k state reason m r)
        (insert-IsKeyed r.base.biz_infos k _ i (rw e (i.named k info e)))

  handle-IsKeyed :
      (e : Event) (r : Running W)
      → Fits e r
      → IsKeyed r.base.biz_infos
      → IsKeyed (handle e r).base.biz_infos
  unfolding process_baseline
  handle-IsKeyed (ran task) r f i = run_task-IsKeyed task r i
  handle-IsKeyed (baseline_came msg) r f i =
      put_baseline-IsKeyed (j.parse_biz_models msg) r.base.biz_infos i
  handle-IsKeyed (state_set k state reason m) r (info, e) i =
      set_biz_state-IsKeyed k state reason m r info e i

  -- Each event fits the state that the events before it lead to.
  abbrev pub FitAll : List Event → Running W → Type 0
  FitAll [] r = Unit
  FitAll (e ∷ events) r = Fits e r × FitAll events (handle e r)

  -- After any sequence of commands, baselines and changes of state, every biz of the base is under
  -- its own name and version, if it was so before. A change of state must be for a biz that the
  -- base has at that time.
  pub handle_all-IsKeyed :
      (events : List Event) (r : Running W)
      → FitAll events r
      → IsKeyed r.base.biz_infos
      → IsKeyed (handle_all events r).base.biz_infos
  handle_all-IsKeyed [] r f i = i
  handle_all-IsKeyed (e ∷ events) r (f, fs) i =
      handle_all-IsKeyed events (handle e r) fs (handle-IsKeyed e r f i)

  -- A change of state for a biz that the base does not have makes an entry without a name and
  -- a version, so a biz is no longer under its own; the key must not be a lone colon.
  pub set_biz_state_unknown :
      (k state reason m : String) (r : Running W)
      → lookup k r.base.biz_infos ≡ none
      → k ≢ ":"
      → (info : ArkBizInfo) × (lookup k (set_biz_state j paho now k state reason m r).base.biz_infos
          ≡ some info)
        × (info.biz_name ≡ "")
        × ¬ IsKeyed (set_biz_state j paho now k state reason m r).base.biz_infos
  unfolding with_state
  set_biz_state_unknown k state reason m r e n =
      let info = with_state state reason m (info_or_zero none) in
      let found : lookup k (set_biz_state j paho now k state reason m r).base.biz_infos
          ≡ some info =
        rw (set_biz_state-infos k state reason m r)
          (lookup-insert k k _ r.base.biz_infos ∙ rw (eq_refl k, e) refl) in
      (info, found, refl, λ i. n (i.named k info found))
