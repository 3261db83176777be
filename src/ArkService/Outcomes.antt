-- ===== src/ArkService/Outcomes.antt =====
-- When a request to an arklet succeeds.
use mathlib.Core.Path.{subst}
use mathlib.Core.Option.{some-injective}
use module_controller.Prelude.{
  ℕ, true, ◌∙◌, false, String, ◌≡◌, refl, sym, ap, arith, Option, none, some, eqb, ◌↔◌, inl, inr,
  Bool-cases,
}
use module_controller.Go.Effect.{Error}
use module_controller.ArkService.{HttpResponse, checked}

not_200 : (n : ℕ) → eqb n 200 ≡ false → n ≡ 200 → ⊥
not_200 n h e = ground arith

is_200 : (n : ℕ) → eqb n 200 ≡ true → n ≡ 200
is_200 n h = ground arith

module _ {ℓ} {T : Type ℓ} (zero_value : T) (unmarshal : String → T × Option Error) where
  -- A request returns without an error exactly when there was no transport error, a response came
  -- with status 200, and its content could be decoded; it then returns the decoded value.
  pub checked_ok_iff :
      (e : Option Error) (r : Option HttpResponse) (value : T)
      → (checked zero_value unmarshal e r ≡ (value, none)) ↔ (
          (answer : HttpResponse) × (e ≡ none)
          × (r ≡ some answer)
          × (answer.status_code ≡ 200)
          × (unmarshal answer.content ≡ (value, none)))
  unfolding checked
  checked_ok_iff (some e) r value = (λ h. cc (ap (λ t. t.1) h), λ h. cc h.1)
  checked_ok_iff none none value = (λ h. cc (ap (λ t. t.1) h), λ h. cc h.2)
  checked_ok_iff none (some answer) value = elim (Bool-cases (eqb answer.status_code 200)) [
    | inl good ↦ (
      λ h. (answer, refl, refl, is_200 answer.status_code good, rw good at h),
      λ h.
          rw good
            (subst (λ a. unmarshal a.content ≡ (value, none)) (sym (some-injective _ _ h.2)) h.4),
    )
    | inr bad ↦ (
      λ h. cc (ap (λ t. t.1) (rw bad at h)),
      λ h. absurd (
          not_200 answer.status_code bad
            (ap (λ (a : HttpResponse). a.status_code) (some-injective _ _ h.2) ∙ h.3)),
    )
  ]
