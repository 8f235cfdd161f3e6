-- ===== src/Common/Int.antt =====
-- Signed 64-bit integers, in the form that Go's `int` and `time.Duration` take: a value of ℤ, and
-- the wrap-around of an operation written out.
use Prim.Native.Nat.{ℕ, suc, ◌+◌, ◌-◌, ◌*◌, ◌%◌, ◌≤◌, ◌<◌}
use mathlib.Core.Path.{◌≡◌}
use mathlib.Core.Bool.{Bool}
use native.Mathlib.Omega.{arith}
use cairnops.Common.Tests.{ltb, leb, if◌then◌else◌}

-- `negsuc n` is -(n + 1).
pub data ℤ : Type 0 where
  pos : ℕ → ℤ
  negsuc : ℕ → ℤ

abbrev pub pos_part : ℤ → ℕ
pos_part (pos n) = n
pos_part (negsuc n) = 0

abbrev pub neg_part : ℤ → ℕ
neg_part (pos n) = 0
neg_part (negsuc n) = suc n

-- a - b, as an integer.
abbrev pub sub_ℕ : ℕ → ℕ → ℤ
sub_ℕ a b = if leb b a then pos (a - b) else negsuc (b - a - 1)

infix 50 ◌≤ℤ◌ ◌<ℤ◌
abbrev pub ◌≤ℤ◌ : ℤ → ℤ → Type 0
a ≤ℤ b = pos_part a + neg_part b ≤ pos_part b + neg_part a

abbrev pub ◌<ℤ◌ : ℤ → ℤ → Type 0
a <ℤ b = pos_part a + neg_part b < pos_part b + neg_part a

abbrev pub ltb_ℤ : ℤ → ℤ → Bool
ltb_ℤ a b = ltb (pos_part a + neg_part b) (pos_part b + neg_part a)

abbrev pub leb_ℤ : ℤ → ℤ → Bool
leb_ℤ a b = leb (pos_part a + neg_part b) (pos_part b + neg_part a)

abbrev pub max_ℤ : ℤ → ℤ → ℤ
max_ℤ a b = if ltb_ℤ a b then b else a

abbrev pub min_ℤ : ℤ → ℤ → ℤ
min_ℤ a b = if ltb_ℤ b a then b else a

abbrev pub u64_mod : ℕ
u64_mod = 18446744073709551616

abbrev pub i64_min_abs : ℕ
i64_min_abs = 9223372036854775808

-- The two's complement reading of a 64-bit word.
abbrev of_word : ℕ → ℤ
of_word w = if ltb w i64_min_abs then pos w else negsuc (u64_mod - w - 1)

-- An exact result brought back into int64, as Go's operators do.
unfoldable pub wrap64 : ℤ → ℤ
wrap64 (pos n) = of_word (n % u64_mod)
wrap64 (negsuc n) = of_word (u64_mod - n % u64_mod - 1)

-- The int64 of an exact result that fits is that result.
pub wrap64_pos : (n : ℕ) → n < i64_min_abs → wrap64 (pos n) ≡ pos n
unfolding wrap64
wrap64_pos n h = ground arith

-- `a + b` and `k * a` on int64, for a natural constant k.
unfoldable pub add64 : ℤ → ℤ → ℤ
unfolding wrap64
add64 a b = wrap64 (sub_ℕ (pos_part a + pos_part b) (neg_part a + neg_part b))

unfoldable pub scale64 : ℕ → ℤ → ℤ
unfolding wrap64
scale64 k a = wrap64 (sub_ℕ (k * pos_part a) (k * neg_part a))

-- `t.Sub(u)` of package time: the difference, saturated at the ends of int64.
unfoldable pub sub_time : ℕ → ℕ → ℤ
sub_time t u =
    if leb u t
    then pos (if ltb (t - u) i64_min_abs then t - u else i64_min_abs - 1)
    else negsuc (if leb (u - t) i64_min_abs then u - t - 1 else i64_min_abs - 1)
