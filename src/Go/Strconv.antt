-- ===== src/Go/Strconv.antt =====
-- package strconv: Itoa and Atoi, for Go's 64-bit int.
pub mod RoundTrip
use Prim.Native.Char.{Char, code}
use Prim.Native.String.{[], ◌∷◌}
use Prim.Native.String
use module_controller.Prelude.{
  ℕ, zero, suc, ◌+◌, ◌-◌, ◌*◌, ◌/◌, ◌%◌, ◌^◌, String, ◌≡◌, refl, Bool, ◌&&◌, Option, none, some,
  arith, ltb, leb, eqb, if◌then◌else◌,
}
use module_controller.Prelude.Int.{ℤ, pos, negsuc}
use module_controller.Go.Strings.{ascii}

abbrev pub digit : ℕ → Char
digit d = ascii (48 + d % 10)

-- The decimal digits of `n`; `suc n` rounds are enough.
unfoldable pub decimal : ℕ → ℕ → String
decimal zero n = ""
decimal (suc fuel) n =
    let rest = String.◌++◌ (decimal fuel (n / 10)) (digit n ∷ "") in
    if ltb n 10 then digit n ∷ "" else rest

-- strconv.Itoa.
unfoldable pub itoa : ℤ → String
unfolding decimal ascii
itoa (pos n) = decimal (suc n) n
itoa (negsuc n) = ascii b'-' ∷ decimal (suc (suc n)) (suc n)

abbrev pub is_digit : Char → Bool
is_digit c = leb 48 (code c) && leb (code c) 57

-- The digits read from the left on, from the value read so far.
unfoldable pub digits_from : ℕ → String → Option ℕ
digits_from acc [] = some acc
digits_from acc (c ∷ s) =
    let rest = digits_from (acc * 10 + (code c - 48)) s in if is_digit c then rest else none

-- At least one digit, and digits only.
unfoldable pub unsigned : String → Option ℕ
unfolding digits_from
unsigned [] = none
unsigned (c ∷ s) = digits_from 0 (c ∷ s)

abbrev pub non_negative : Option ℕ → Option ℤ
non_negative none = none
non_negative (some n) = if ltb n (2 ^ 63) then some (pos n) else none

abbrev pub negated : Option ℕ → Option ℤ
negated none = none
negated (some zero) = some (pos 0)
negated (some (suc n)) = if ltb n (2 ^ 63) then some (negsuc n) else none

-- strconv.Atoi; `none` is a non-nil error (syntax or range), whose value no caller uses.
unfoldable pub atoi : String → Option ℤ
unfolding unsigned
atoi [] = none
atoi (c ∷ s) =
    if eqb (code c) b'-'
    then negated (unsigned s)
    else if eqb (code c) b'+'
    then non_negative (unsigned s)
    else non_negative (unsigned (c ∷ s))

itoa_test : itoa (negsuc 1237) ≡ "-1238"
unfolding itoa
itoa_test = refl

atoi_test : atoi "+7777" ≡ some (pos 7777)
unfolding atoi
atoi_test = refl

atoi_range : atoi "9223372036854775808" ≡ none
unfolding atoi
atoi_range = refl
