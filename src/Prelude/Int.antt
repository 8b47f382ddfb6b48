-- ===== src/Prelude/Int.antt =====
-- Signed 64-bit and 32-bit numbers as integers over the native numbers (the library's ℤ stands on
-- the unary ℕ), with the conversions that `as` makes.
use Prim.Native.Nat.{ℕ, suc, ◌+◌, ◌-◌, ◌≤◌, ◌<◌, ◌^◌, ◌%◌}
use mathlib.Core.Path.{◌≡◌}
use mathlib.Core.Bool.{Bool}
use native.Mathlib.Omega.{arith}
use rstr.Prelude.Tests.{ltb, if◌then◌else◌}

-- `negsuc n` is -(n + 1).
pub data ℤ : Type 0 where
  pos : ℕ → ℤ
  negsuc : ℕ → ℤ

abbrev pub pos_part : ℤ → ℕ
pos_part (pos n) = n
pos_part (negsuc n) = 0

abbrev pub neg_part : ℤ → ℕ
neg_part (pos n) = 0
neg_part (negsuc n) = suc n

infix 50 ◌≤ℤ◌ ◌<ℤ◌
abbrev pub ◌≤ℤ◌ : ℤ → ℤ → Type 0
a ≤ℤ b = pos_part a + neg_part b ≤ pos_part b + neg_part a

abbrev pub ◌<ℤ◌ : ℤ → ℤ → Type 0
a <ℤ b = pos_part a + neg_part b < pos_part b + neg_part a

abbrev pub ltb_ℤ : ℤ → ℤ → Bool
ltb_ℤ a b = ltb (pos_part a + neg_part b) (pos_part b + neg_part a)

-- `n as iW` for a W-bit unsigned number.
abbrev pub to_signed : ℕ → ℕ → ℤ
to_signed w n = if ltb n (2 ^ (w - 1)) then pos n else negsuc (2 ^ w - n - 1)

-- `z as uW`: the W-bit two's complement pattern.
abbrev pub to_unsigned : ℕ → ℤ → ℕ
to_unsigned w (pos n) = n % 2 ^ w
to_unsigned w (negsuc n) = 2 ^ w - 1 - n % 2 ^ w

-- The values of an iW.
abbrev pub IsSigned : ℕ → ℤ → Type 0
IsSigned w (pos n) = n < 2 ^ (w - 1)
IsSigned w (negsuc n) = n < 2 ^ (w - 1)

abbrev pub i64_min : ℤ
i64_min = negsuc (2 ^ 63 - 1)

pub to_signed-to_unsigned_32 : (z : ℤ) → IsSigned 32 z → to_signed 32 (to_unsigned 32 z) ≡ z
to_signed-to_unsigned_32 (pos n) h = ground arith
to_signed-to_unsigned_32 (negsuc n) h = ground arith

pub to_signed-to_unsigned_64 : (z : ℤ) → IsSigned 64 z → to_signed 64 (to_unsigned 64 z) ≡ z
to_signed-to_unsigned_64 (pos n) h = ground arith
to_signed-to_unsigned_64 (negsuc n) h = ground arith

pub to_unsigned-lt_64 : (z : ℤ) → to_unsigned 64 z < 2 ^ 64
to_unsigned-lt_64 (pos n) = omega arith
to_unsigned-lt_64 (negsuc n) = omega arith

pub to_unsigned-lt_32 : (z : ℤ) → to_unsigned 32 z < 2 ^ 32
to_unsigned-lt_32 (pos n) = omega arith
to_unsigned-lt_32 (negsuc n) = omega arith
