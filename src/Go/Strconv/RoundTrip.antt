-- ===== src/Go/Strconv/RoundTrip.antt =====
-- Atoi reads back what Itoa prints, for every 64-bit int.
use Prim.Native.Char.{Char, code}
use Prim.Native.String.{[], ◌∷◌}
use Prim.Native.String
use text.Mathlib.TextLemmas.{nil-append, cons-append}
use module_controller.Prelude.{
  ℕ, zero, suc, ◌+◌, ◌-◌, ◌*◌, ◌/◌, ◌%◌, ◌<◌, ◌≤◌, String, ◌≡◌, refl, ap, some, arith, ltb,
  Bool-cases, inl, inr, true, ◌∙◌,
}
use mathlib.Core.Option.{some-injective as some-inj}
use module_controller.Prelude.Int.{ℤ, pos, negsuc, IsInt64}
use module_controller.Go.Strings.{ascii}
use module_controller.Go.Strconv.{
  digit, decimal, itoa, is_digit, digits_from, unsigned, atoi, non_negative, negated,
}

code-digit : (n : ℕ) → code (digit n) ≡ 48 + n % 10
unfolding ascii
code-digit n = omega arith

-- A text that begins with a digit.
data BeginsDigit : String → Type 0 where
  begins : (c : Char) (s : String) → 48 ≤ code c → code c ≤ 57 → BeginsDigit (c ∷ s)

BeginsDigit-append : {s : String} (t : String) → BeginsDigit s → BeginsDigit (String.◌++◌ s t)
BeginsDigit-append t (begins c s l h) = rw cons-append (begins c (String.◌++◌ s t) l h)

BeginsDigit-decimal : (fuel n : ℕ) → n < fuel → BeginsDigit (decimal fuel n)
unfolding decimal
BeginsDigit-decimal zero n h = elim h [ ]
BeginsDigit-decimal (suc fuel) n h = elim (Bool-cases (ltb n 10)) [
  | inl small ↦
      rw small (begins (digit n) "" (omega (arith, code-digit n)) (omega (arith, code-digit n)))
  | inr large ↦
      rw large
        (BeginsDigit-append (digit n ∷ "") (BeginsDigit-decimal fuel (n / 10) (ground arith)))
]

digits_from-digit :
    (acc m : ℕ) (s : String) → digits_from acc (digit m ∷ s) ≡ digits_from (acc * 10 + m % 10) s
unfolding digits_from
digits_from-digit acc m s =
    let sum : acc * 10 + (code (digit m) - 48) ≡ acc * 10 + m % 10 = omega (arith, code-digit m) in
    let test : is_digit (digit m) ≡ true = ground (arith, code-digit m) in rw test (rw sum)

digits_from-append :
    (acc m v : ℕ) (s : String)
    → digits_from acc s ≡ some v
    → digits_from acc (String.◌++◌ s (digit m ∷ "")) ≡ some (v * 10 + m % 10)
unfolding digits_from
digits_from-append acc m v [] h =
    rw nil-append
      (digits_from-digit acc m "" ∙ ap some (ap (λ t. t * 10 + m % 10) (some-inj _ _ h)))
digits_from-append acc m v (c ∷ s) h = elim (Bool-cases (is_digit c)) [
  | inl yes_digit ↦
      rw cons-append
        (rw yes_digit (digits_from-append (acc * 10 + (code c - 48)) m v s (rw yes_digit at h)))
  | inr other ↦ cc (rw other at h)
]

digits_from-decimal : (fuel n : ℕ) → n < fuel → digits_from 0 (decimal fuel n) ≡ some n
unfolding decimal digits_from
digits_from-decimal zero n h = elim h [ ]
digits_from-decimal (suc fuel) n h = elim (Bool-cases (ltb n 10)) [
  | inl small ↦ rw small (digits_from-digit 0 n "" ∙ ap some (ground arith))
  | inr large ↦ rw large (
      digits_from-append 0 n (n / 10) (decimal fuel (n / 10))
        (digits_from-decimal fuel (n / 10) (ground arith))
      ∙ ap some (omega arith))
]

unsigned_of_BeginsDigit : {s : String} → BeginsDigit s → unsigned s ≡ digits_from 0 s
unfolding unsigned
unsigned_of_BeginsDigit (begins c s l h) = refl

atoi_of_BeginsDigit : {s : String} → BeginsDigit s → atoi s ≡ non_negative (unsigned s)
unfolding atoi
atoi_of_BeginsDigit (begins c s l h) = ground arith

unsigned-decimal : (n : ℕ) → unsigned (decimal (suc n) n) ≡ some n
unsigned-decimal n =
    unsigned_of_BeginsDigit (BeginsDigit-decimal (suc n) n (omega arith))
    ∙ digits_from-decimal (suc n) n (omega arith)

itoa-pos : (n : ℕ) → itoa (pos n) ≡ decimal (suc n) n
unfolding itoa
itoa-pos n = refl

itoa-negsuc : (n : ℕ) → itoa (negsuc n) ≡ ascii b'-' ∷ decimal (suc (suc n)) (suc n)
unfolding itoa
itoa-negsuc n = refl

atoi-minus : (s : String) → atoi (ascii b'-' ∷ s) ≡ negated (unsigned s)
unfolding atoi ascii
atoi-minus s = refl

-- Atoi reads back what Itoa prints, for every 64-bit integer.
pub atoi-itoa : (z : ℤ) → IsInt64 z → atoi (itoa z) ≡ some z
atoi-itoa (pos n) h = rw itoa-pos (
    atoi_of_BeginsDigit (BeginsDigit-decimal (suc n) n (omega arith))
    ∙ rw (unsigned-decimal n) (ground arith))
atoi-itoa (negsuc n) h =
    rw itoa-negsuc (rw atoi-minus (rw (unsigned-decimal (suc n)) (ground arith)))
