-- ===== src/Go/Strings.antt =====
-- package strings: Split by one character, ToUpper and EqualFold, over the runes of a text.
pub mod Split
use Prim.Native.Char.{Char, char, code, IsScalar}
use Prim.Native.String.{[], ◌∷◌}
use mathlib.Core.List
use mathlib.Core.List.{List}
use module_controller.Prelude.{
  ℕ, ◌+◌, ◌-◌, ◌%◌, String, ◌≡◌, refl, Bool, true, false, ◌&&◌, arith, ltb, leb, eqb, if◌then◌else◌,
}

scalar : (n : ℕ) → IsScalar (n % 128)
scalar n = ground arith

-- The character of an ASCII code.
unfoldable pub ascii : ℕ → Char
unfolding scalar
ascii n = char (n % 128) (scalar n)

pub code-ascii : (n : ℕ) → code (ascii n) ≡ n % 128
unfolding ascii
code-ascii n = refl

abbrev pub Strings : Type 0
Strings = List String

-- One more character in front of the first field.
abbrev pub cons_head : Char → Strings → Strings
cons_head c List.[] = List.◌∷◌ (c ∷ []) List.[]
cons_head c (List.◌∷◌ field fields) = List.◌∷◌ (c ∷ field) fields

-- strings.Split(s, sep), for a separator of one character with the code `sep`.
unfoldable pub split : ℕ → String → Strings
split sep [] = List.◌∷◌ "" List.[]
split sep (c ∷ s) =
    let rest = split sep s in if eqb (code c) sep then List.◌∷◌ "" rest else cons_head c rest

abbrev pub is_lower : ℕ → Bool
is_lower n = leb b'a' n && leb n b'z'

-- unicode.ToUpper; `other` is its table above the ASCII characters.
abbrev pub upper_rune : (Char → Char) → Char → Char
upper_rune other c =
    if is_lower (code c) then ascii (code c - 32) else if ltb (code c) 128 then c else other c

-- strings.ToUpper.
unfoldable pub to_upper : (Char → Char) → String → String
unfolding ascii
to_upper other [] = []
to_upper other (c ∷ s) = upper_rune other c ∷ to_upper other s

abbrev fold_code : ℕ → ℕ
fold_code n = if is_lower n then n - 32 else n

-- strings.EqualFold(s, t) for a `t` of ASCII characters other than K and S: those alone have no
-- further character in their case folding.
unfoldable pub equal_fold : String → String → Bool
equal_fold [] [] = true
equal_fold [] (d ∷ t) = false
equal_fold (c ∷ s) [] = false
equal_fold (c ∷ s) (d ∷ t) = eqb (fold_code (code c)) (fold_code (code d)) && equal_fold s t

splits : split b'/' "a//b" ≡ List.◌∷◌ "a" (List.◌∷◌ "" (List.◌∷◌ "b" List.[]))
unfolding split
splits = refl

folds : equal_fold "Activated" "ACTIVATED" ≡ true
unfolding equal_fold
folds = refl

uppers : to_upper (λ c. c) "Resolved-1" ≡ "RESOLVED-1"
unfolding to_upper
uppers = refl
