-- ===== src/Base/Int.antt =====
-- Signed integers over the native numbers, and the wrap-around of Go's 64-bit `int` and `int64`.
use Prim.Native.Nat.{ℕ, suc, ◌+◌, ◌-◌, ◌%◌, ◌*◌, ◌≤◌, ◌<◌}
use mathlib.Core.Path.{◌≡◌, refl}
use mathlib.Core.Bool.{Bool}
use native.Mathlib.Omega.{arith}
use cpa_quota_alert_plugin.Base.Tests.{ltb, leb, eqb, if◌then◌else◌}

-- `negsuc n` is -(n + 1).
pub data ℤ : Type 0 where
  pos : ℕ → ℤ
  negsuc : ℕ → ℤ

abbrev pub pos_part : ℤ → ℕ
pos_part (pos n) = n
pos_part (negsuc n) = 0

abbrev pub neg_part : ℤ → ℕ
neg_part (pos n) = 0
neg_part (negsuc n) = suc n

abbrev pub sub_ℕ : ℕ → ℕ → ℤ
sub_ℕ a b = if leb b a then pos (a - b) else negsuc (b - a - 1)

abbrev pub ltb_ℤ : ℤ → ℤ → Bool
ltb_ℤ a b = ltb (pos_part a + neg_part b) (pos_part b + neg_part a)

abbrev pub leb_ℤ : ℤ → ℤ → Bool
leb_ℤ a b = leb (pos_part a + neg_part b) (pos_part b + neg_part a)

abbrev pub eqb_ℤ : ℤ → ℤ → Bool
eqb_ℤ a b = eqb (pos_part a + neg_part b) (pos_part b + neg_part a)

infix 50 ◌≤ℤ◌
abbrev pub ◌≤ℤ◌ : ℤ → ℤ → Type 0
a ≤ℤ b = pos_part a + neg_part b ≤ pos_part b + neg_part a

infixl 70 ◌*ℤ◌
unfoldable pub ◌*ℤ◌ : ℤ → ℤ → ℤ
a *ℤ b =
    sub_ℕ (pos_part a * pos_part b + neg_part a * neg_part b)
      (pos_part a * neg_part b + neg_part a * pos_part b)

-- 2 ^ 63 - 1 and 2 ^ 64
abbrev pub max_int : ℕ
max_int = 9223372036854775807

abbrev pub two_64 : ℕ
two_64 = 18446744073709551616

-- The value that a 64-bit two's complement register holds for the integer.
unfoldable pub wrap : ℤ → ℤ
wrap z =
    let r = (pos_part z + (two_64 - neg_part z % two_64)) % two_64 in
    if leb r max_int then pos r else negsuc (two_64 - 1 - r)

-- `n++` on an `int`
unfoldable pub increment : ℤ → ℤ
unfolding wrap
increment (pos n) = wrap (pos (n + 1))
increment (negsuc n) = wrap (sub_ℕ 0 n)

-- Below the largest value an increment adds one.
pub increment-pos : (n : ℕ) → n < max_int → increment (pos n) ≡ pos (n + 1)
unfolding increment
increment-pos n h = ground arith

increment_overflow : increment (pos max_int) ≡ negsuc max_int
unfolding increment
increment_overflow = refl
