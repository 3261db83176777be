-- ===== src/Utils/Expiry.antt =====
-- When a message is dropped as too old.
use module_controller.Prelude.{ℕ, ◌+◌, ◌^◌, ◌<◌, ◌≤◌, ◌≡◌, ◌↔◌, arith, true}
use module_controller.Prelude.Int.{ℤ, pos, ◌+ℤ◌, ◌≤ℤ◌, leb_ℤ, IsInt64, int64_of_IsInt64}
use module_controller.Utils.{expired}

leb_ℤ_iff : (a b : ℤ) → (leb_ℤ a b ≡ true) ↔ (a ≤ℤ b)
leb_ℤ_iff a b = ground arith

-- If the sum of the timestamp and the lifetime is a 64-bit integer, a message has expired exactly
-- when that sum is at most the clock.
pub expired_iff :
    (now published max_live : ℤ)
    → IsInt64 (published +ℤ max_live)
    → (expired now published max_live ≡ true) ↔ (published +ℤ max_live ≤ℤ now)
expired_iff now published max_live h =
    unfold expired in
    rw (int64_of_IsInt64 (published +ℤ max_live) h) (leb_ℤ_iff (published +ℤ max_live) now)

-- A timestamp so far ahead that adding the lifetime passes the 64-bit range counts as expired at
-- every clock from 1970 on.
pub expired_overflow :
    (now published max_live : ℕ)
    → published < 2 ^ 63
    → max_live < 2 ^ 63
    → 2 ^ 63 ≤ published + max_live
    → expired (pos now) (pos published) (pos max_live) ≡ true
unfolding expired
expired_overflow now published max_live h k o = ground arith
