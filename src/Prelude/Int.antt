-- ===== src/Prelude/Int.antt =====
-- Signed integers over the native numbers, and the machine integers of Go as their wrapped range.
use Prim.Native.Nat.{ℕ, suc, ◌+◌, ◌-◌, ◌%◌, ◌^◌, ◌≤◌, ◌<◌}
use mathlib.Core.Path.{◌≡◌, refl}
use mathlib.Core.Logic.{◌↔◌}
use mathlib.Core.Bool.{Bool, true}
use native.Mathlib.Omega.{arith}
use module_controller.Prelude.{ltb, leb, eqb, if◌then◌else◌}

-- `negsuc n` is -(n + 1).
pub data ℤ : Type 0 where
  pos : ℕ → ℤ
  negsuc : ℕ → ℤ

abbrev pub pos_part : ℤ → ℕ
pos_part (pos n) = n
pos_part (negsuc n) = 0

abbrev pub neg_part : ℤ → ℕ
neg_part (pos n) = 0
neg_part (negsuc n) = suc n

abbrev pub sub_ℕ : ℕ → ℕ → ℤ
sub_ℕ a b = if leb b a then pos (a - b) else negsuc (b - a - 1)

infixl 65 ◌+ℤ◌ ◌-ℤ◌
infix 50 ◌≤ℤ◌ ◌<ℤ◌
unfoldable pub ◌+ℤ◌ : ℤ → ℤ → ℤ
a +ℤ b = sub_ℕ (pos_part a + pos_part b) (neg_part a + neg_part b)

unfoldable pub ◌-ℤ◌ : ℤ → ℤ → ℤ
a -ℤ b = sub_ℕ (pos_part a + neg_part b) (neg_part a + pos_part b)

abbrev pub ◌≤ℤ◌ : ℤ → ℤ → Type 0
a ≤ℤ b = pos_part a + neg_part b ≤ pos_part b + neg_part a

abbrev pub ◌<ℤ◌ : ℤ → ℤ → Type 0
a <ℤ b = pos_part a + neg_part b < pos_part b + neg_part a

abbrev pub ltb_ℤ : ℤ → ℤ → Bool
ltb_ℤ a b = ltb (pos_part a + neg_part b) (pos_part b + neg_part a)

abbrev pub leb_ℤ : ℤ → ℤ → Bool
leb_ℤ a b = leb (pos_part a + neg_part b) (pos_part b + neg_part a)

abbrev pub eqb_ℤ : ℤ → ℤ → Bool
eqb_ℤ a b = eqb (pos_part a + neg_part b) (pos_part b + neg_part a)

pub eq_of_parts : (a b : ℤ) → pos_part a + neg_part b ≡ pos_part b + neg_part a → a ≡ b
eq_of_parts a b h = ground arith

pub eqb_ℤ_iff : (a b : ℤ) → (eqb_ℤ a b ≡ true) ↔ (a ≡ b)
eqb_ℤ_iff a b = ground arith

-- The signed reading of the `w` low bits, from the remainder modulo `2 ^ w`.
abbrev signed_of : ℕ → ℕ → ℤ
signed_of half r = if ltb r half then pos r else negsuc (half + half - 1 - r)

-- Wrap-around to a signed integer of 64 and of 32 bits: -(n + 1) has the remainder
-- `2 ^ w - 1 - n % 2 ^ w`.
unfoldable pub int64 : ℤ → ℤ
int64 (pos n) = signed_of (2 ^ 63) (n % 2 ^ 64)
int64 (negsuc n) = signed_of (2 ^ 63) (2 ^ 64 - 1 - n % 2 ^ 64)

unfoldable pub int32 : ℤ → ℤ
int32 (pos n) = signed_of (2 ^ 31) (n % 2 ^ 32)
int32 (negsuc n) = signed_of (2 ^ 31) (2 ^ 32 - 1 - n % 2 ^ 32)

abbrev pub IsInt64 : ℤ → Type 0
IsInt64 z = (negsuc (2 ^ 63 - 1) ≤ℤ z) × (z <ℤ pos (2 ^ 63))

pub int64_of_IsInt64 : (z : ℤ) → IsInt64 z → int64 z ≡ z
unfolding int64
int64_of_IsInt64 (pos n) h = ground arith
int64_of_IsInt64 (negsuc n) h = ground arith

pub int64-IsInt64 : (z : ℤ) → IsInt64 (int64 z)
unfolding int64
int64-IsInt64 (pos n) = ground arith
int64-IsInt64 (negsuc n) = ground arith

pub int32_of_small : (n : ℕ) → n < 2 ^ 31 → int32 (pos n) ≡ pos n
unfolding int32
int32_of_small n h = ground arith

wraps : int64 (pos (2 ^ 63)) ≡ negsuc (2 ^ 63 - 1)
unfolding int64
wraps = refl
