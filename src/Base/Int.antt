-- ===== src/Base/Int.antt =====
-- Go's int, int32 and int64: integers over the native numbers, with the wrap-around of a width.
use Prim.Native.Nat.{ℕ, suc, ◌+◌, ◌-◌, ◌*◌, ◌%◌, ◌^◌, ◌≤◌, ◌<◌}
use mathlib.Core.Path.{◌≡◌}
use mathlib.Core.Bool.{Bool}
use native.Mathlib.Omega.{arith}
use reservation_worker.Base.Tests.{ltb, leb, if◌then◌else◌}

-- `negsuc n` is -(n + 1).
pub data ℤ : Type 0 where
  pos : ℕ → ℤ
  negsuc : ℕ → ℤ

abbrev pub pos_part : ℤ → ℕ
pos_part (pos n) = n
pos_part (negsuc n) = 0

abbrev pub neg_part : ℤ → ℕ
neg_part (pos n) = 0
neg_part (negsuc n) = suc n

abbrev pub sub_ℕ : ℕ → ℕ → ℤ
sub_ℕ a b = if leb b a then pos (a - b) else negsuc (b - a - 1)

infix 50 ◌≤ℤ◌ ◌<ℤ◌
abbrev pub ◌≤ℤ◌ : ℤ → ℤ → Type 0
a ≤ℤ b = pos_part a + neg_part b ≤ pos_part b + neg_part a

abbrev pub ◌<ℤ◌ : ℤ → ℤ → Type 0
a <ℤ b = pos_part a + neg_part b < pos_part b + neg_part a

abbrev pub leb_ℤ : ℤ → ℤ → Bool
leb_ℤ a b = leb (pos_part a + neg_part b) (pos_part b + neg_part a)

abbrev pub ltb_ℤ : ℤ → ℤ → Bool
ltb_ℤ a b = ltb (pos_part a + neg_part b) (pos_part b + neg_part a)

-- Multiplication by a number that is not negative.
unfoldable pub scale : ℤ → ℕ → ℤ
scale (pos n) k = pos (n * k)
scale (negsuc n) k = sub_ℕ 0 (suc n * k)

-- The value in [-half, half) that is equal to the integer modulo `2 * half`.
unfoldable pub wrap : ℕ → ℤ → ℤ
wrap half (pos n) = let r = n % (half + half) in if ltb r half then pos r else sub_ℕ r (half + half)
wrap half (negsuc n) =
    let r = n % (half + half) in if ltb r half then negsuc r else pos (half + half - 1 - r)

abbrev pub half32 : ℕ
half32 = 2 ^ 31

abbrev pub half64 : ℕ
half64 = 2 ^ 63

-- The conversion `int32(x)` of an int.
unfoldable pub to_int32 : ℤ → ℤ
unfolding wrap
to_int32 a = wrap half32 a

-- What an operation on int, int64 or time.Duration leaves of the exact result.
unfoldable pub to_int64 : ℤ → ℤ
unfolding wrap
to_int64 a = wrap half64 a

-- The values of a type of the width.
abbrev pub Fits : ℕ → ℤ → Type 0
Fits half (pos n) = n < half
Fits half (negsuc n) = n < half

pub Fits-to_int32 : (a : ℤ) → Fits half32 (to_int32 a)
unfolding to_int32
Fits-to_int32 (pos n) = ground arith
Fits-to_int32 (negsuc n) = ground arith

pub to_int32-Fits : (a : ℤ) → Fits half32 a → to_int32 a ≡ a
unfolding to_int32
to_int32-Fits (pos n) h = ground arith
to_int32-Fits (negsuc n) h = ground arith

pub to_int64-Fits : (a : ℤ) → Fits half64 a → to_int64 a ≡ a
unfolding to_int64
to_int64-Fits (pos n) h = ground arith
to_int64-Fits (negsuc n) h = ground arith
