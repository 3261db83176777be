-- ===== src/MockBase/Http/Laws.antt =====
-- What the routes of the mock base do to its bizs.
use module_controller.Prelude.{
  String, true, false, ◌≡◌, refl, ap, ◌∙◌, Option, none, some, ◌==◌, if◌then◌else◌, lookup,
  lookup-insert, lookup-delete, eq_iff, Bool-cases, inl, inr, sym,
}
use module_controller.Go.Effect.{Result, ok, err}
use module_controller.Platform.Ark.{BizModel, ArkBizInfo}
use module_controller.MockBase.{get_biz_identity, BizInfos, IsKeyed, insert-IsKeyed, delete-IsKeyed}
use module_controller.MockBase.Http.{
  Json, MockHttpBase, Route, health, query_all_biz, install_biz, uninstall_biz, serve, answer,
  with_status_ok, new_biz_info, add_unless_known, process_install_biz, process_uninstall_biz,
}

-- A biz that is there stays as it is.
abbrev pub kept_or_new : Option ArkBizInfo → BizModel → ArkBizInfo
kept_or_new (some known) request = known
kept_or_new none request = new_biz_info request

-- What the base has under a key after a request was read, from what it had before.
abbrev pub after_request :
    Route → BizModel → (String → Option ArkBizInfo) → String → Option ArkBizInfo
after_request install_biz m d k =
    if get_biz_identity m == k then some (kept_or_new (d (get_biz_identity m)) m) else d k
after_request uninstall_biz m d k = if get_biz_identity m == k then none else d k
after_request _ m d k = d k

add_unless_known-find :
    (m : BizModel) (infos : BizInfos) (known : Option ArkBizInfo) (k : String)
    → lookup (get_biz_identity m) infos ≡ known
    → lookup k (add_unless_known known m infos)
      ≡ after_request install_biz m (λ i. lookup i infos) k
add_unless_known-find m infos none k e =
    lookup-insert (get_biz_identity m) k (new_biz_info m) infos
    ∙ ap (λ o. if get_biz_identity m == k then some (kept_or_new o m) else lookup k infos) (sym e)
add_unless_known-find m infos (some known) k e = elim (Bool-cases (get_biz_identity m == k)) [
  | inl same ↦
      ap (λ i. lookup i infos) (sym ((eq_iff (get_biz_identity m) k).0 same))
      ∙ e
      ∙ rw (same, e) refl
  | inr other ↦ rw other refl
]

add_unless_known-IsKeyed :
    (m : BizModel) (infos : BizInfos) (known : Option ArkBizInfo)
    → IsKeyed infos
    → IsKeyed (add_unless_known known m infos)
unfolding get_biz_identity
add_unless_known-IsKeyed m infos (some known) i = i
add_unless_known-IsKeyed m infos none i = insert-IsKeyed infos _ (new_biz_info m) i refl

module _ (j : Json) where
  pub answer-find :
      (route : Route) (body : String) (b : MockHttpBase) (k : String)
      → lookup k (answer j route (ok body) b).1.biz_infos
        ≡ after_request route (j.parse_biz_model body) (λ i. lookup i b.biz_infos) k
  unfolding answer process_install_biz process_uninstall_biz
  answer-find health body b k = refl
  answer-find query_all_biz body b k = refl
  answer-find install_biz body b k =
      add_unless_known-find (j.parse_biz_model body) b.biz_infos _ k refl
  answer-find uninstall_biz body b k = lookup-delete _ k b.biz_infos

  pub serve-up :
      (route : Route) (body : Result String) (b : MockHttpBase)
      → b.reachable ≡ true
      → serve j route body b ≡ with_status_ok (answer j route body b)
  unfolding serve
  serve-up route body b e =
      ap
        (λ up.
          if up
          then with_status_ok (answer j route body b)
          else (record { status_code = 502; content = "" }, b))
        e

  serve-down :
      (route : Route) (body : Result String) (b : MockHttpBase)
      → b.reachable ≡ false
      → serve j route body b ≡ (record { status_code = 502; content = "" }, b)
  unfolding serve
  serve-down route body b e =
      ap
        (λ up.
          if up
          then with_status_ok (answer j route body b)
          else (record { status_code = 502; content = "" }, b))
        e

  -- A reachable base answers a request that it can read with the status 200. An install request
  -- adds its biz if there is none of this name and version, an uninstall request removes it, and
  -- under every other key, and for every other request, the bizs are as before.
  pub serve-bizs :
      (route : Route) (body : String) (b : MockHttpBase) (k : String)
      → b.reachable ≡ true
      → let (response, b') = serve j route (ok body) b in
        (response.status_code ≡ 200)
        × (lookup k b'.biz_infos
            ≡ after_request route (j.parse_biz_model body) (λ i. lookup i b.biz_infos) k)
  serve-bizs route body b k e =
      let up = serve-up route (ok body) b e in
      (
        ap (λ r. r.0.status_code) up,
        ap (λ r. lookup k r.1.biz_infos) up ∙ answer-find route body b k,
      )

  answer-IsKeyed :
      (route : Route) (body : Result String) (b : MockHttpBase)
      → IsKeyed b.biz_infos
      → IsKeyed (answer j route body b).1.biz_infos
  unfolding answer process_install_biz process_uninstall_biz
  answer-IsKeyed health body b i = i
  answer-IsKeyed query_all_biz body b i = i
  answer-IsKeyed install_biz (ok body) b i =
      add_unless_known-IsKeyed (j.parse_biz_model body) b.biz_infos _ i
  answer-IsKeyed install_biz (err e) b i = i
  answer-IsKeyed uninstall_biz (ok body) b i = delete-IsKeyed b.biz_infos _ i
  answer-IsKeyed uninstall_biz (err e) b i = i

  -- Whatever is asked, and whether or not the base is reachable and can read it, every biz stays
  -- under its own name and version.
  pub serve-IsKeyed :
      (route : Route) (body : Result String) (b : MockHttpBase)
      → IsKeyed b.biz_infos
      → IsKeyed (serve j route body b).1.biz_infos
  serve-IsKeyed route body b i = elim (Bool-cases b.reachable) [
    | inl up ↦ rw (serve-up route body b up) (answer-IsKeyed route body b i)
    | inr down ↦ rw (serve-down route body b down) i
  ]
