-- ===== src/Go/Effect.antt =====
-- A Go function that mutates state and may panic. What was done before a panic stays done, so the
-- state comes back in both cases.
use module_controller.Prelude.{String, List, [], ◌∷◌}

pub data Outcome {ℓ} (A : Type ℓ) : Type ℓ where
  returns : A → Outcome A
  panics : Outcome A

-- The values of Go's `error` that the program tells apart; a nil error is `none`.
pub data Error : Type 0 where
  message : String → Error
  not_found : String → Error
  errdefs_not_found : String → Error

-- The text of an error, Go's `err.Error()`.
abbrev pub text_of : Error → String
text_of (message s) = s
text_of (not_found s) = s
text_of (errdefs_not_found s) = s

-- A call that returns `(value, nil)` or `(zero, err)`.
pub data Result {ℓ} (A : Type ℓ) : Type ℓ where
  ok : A → Result A
  err : Error → Result A

abbrev pub Go {ℓ} : Type ℓ → Type ℓ → Type ℓ
Go S A = S → Outcome A × S

module _ {ℓ} {S A : Type ℓ} where
  abbrev pub pure : A → Go S A
  pure a s = (returns a, s)

  abbrev pub panic : Go S A
  panic s = (panics, s)

  abbrev pub gets : (S → A) → Go S A
  gets f s = (returns (f s), s)

module _ {ℓ} {S A : Type ℓ} where
  abbrev pub lift : Outcome A → Go S A
  lift r s = (r, s)

module _ {ℓ} {S : Type ℓ} where
  abbrev pub modify : (S → S) → Go S Unit
  modify f s = (returns tt, f s)

module _ {ℓ} {S A B : Type ℓ} where
  abbrev pub go_on : Outcome A → (A → Go S B) → Go S B
  go_on (returns a) f s = f a s
  go_on panics f s = (panics, s)

  infixl 10 ◌>>=◌ ◌>>◌
  abbrev pub ◌>>=◌ : Go S A → (A → Go S B) → Go S B
  ◌>>=◌ m f s = let (r, s') = m s in go_on r f s'

  abbrev pub ◌>>◌ : Go S A → Go S B → Go S B
  m >> n = m >>= λ _. n

-- `for _, x := range xs { body }`
module _ {ℓ} {S A : Type ℓ} where
  unfoldable pub for_each : (A → Go S Unit) → List A → Go S Unit
  for_each body [] = pure tt
  for_each body (x ∷ xs) = do body x; for_each body xs
