-- ===== src/Prelude/Bits.antt =====
-- `|` of disjoint fields and `&` with a mask of low bits, as arithmetic on the native numbers.
use Prim.Native.Nat.{
  ℕ, zero, suc, ◌+◌, ◌*◌, ◌/◌, ◌%◌, ◌^◌, ◌≤◌, ◌<◌, min, max, bit_and, bit_or, digits,
  bit_and-bitwise, bit_or-bitwise,
}
use mathlib.Core.Path.{◌≡◌, refl, ap}
use native.Mathlib.Nat.{pow-suc}
use native.Mathlib.Omega.{arith}

-- The digit recursion does not depend on its fuel.
enough_fuel :
    (z : ℕ → ℕ) (f : ℕ → ℕ → ℕ) (n m a b : ℕ) → a ≤ n → a ≤ m → digits z f n a b ≡ digits z f m a b
enough_fuel z f zero zero zero b p q = refl
enough_fuel z f zero zero (suc a) b p q = refl
enough_fuel z f zero (suc m) zero b p q = refl
enough_fuel z f zero (suc m) (suc a) b p q = absurd (omega arith)
enough_fuel z f (suc n) zero zero b p q = refl
enough_fuel z f (suc n) zero (suc a) b p q = absurd (omega arith)
enough_fuel z f (suc n) (suc m) zero b p q = refl
enough_fuel z f (suc n) (suc m) (suc a) b p q =
    rw (enough_fuel z f n m (suc a / 2) (b / 2) (omega arith) (omega arith))

bit_or_half : (a b : ℕ) → bit_or a b ≡ bit_or (a / 2) (b / 2) * 2 + max (a % 2) (b % 2)
bit_or_half zero b = simp bit_or-bitwise (omega arith)
bit_or_half (suc a) b = simp bit_or-bitwise (
    omega (
      arith,
      enough_fuel (λ y. y) max a (suc a / 2) (suc a / 2) (b / 2) (omega arith) (omega arith),
    ))

bit_and_half : (a b : ℕ) → bit_and a b ≡ bit_and (a / 2) (b / 2) * 2 + min (a % 2) (b % 2)
bit_and_half zero b = simp bit_and-bitwise (omega arith)
bit_and_half (suc a) b = simp bit_and-bitwise (
    omega (
      arith,
      enough_fuel (λ y. 0) min a (suc a / 2) (suc a / 2) (b / 2) (omega arith) (omega arith),
    ))

bit_or-zero : (fuel a : ℕ) → a ≤ fuel → bit_or a 0 ≡ a
bit_or-zero fuel zero h = refl
bit_or-zero zero (suc a) h = absurd (omega arith)
bit_or-zero (suc fuel) (suc a) h =
    omega (arith, bit_or_half (suc a) 0, bit_or-zero fuel (suc a / 2) (omega arith))

bit_and-zero : (fuel a : ℕ) → a ≤ fuel → bit_and a 0 ≡ 0
bit_and-zero fuel zero h = refl
bit_and-zero zero (suc a) h = absurd (omega arith)
bit_and-zero (suc fuel) (suc a) h =
    omega (arith, bit_and_half (suc a) 0, bit_and-zero fuel (suc a / 2) (omega arith))

twice_pow : (q k : ℕ) → q * 2 ^ suc k ≡ 2 * (q * 2 ^ k)
twice_pow q k = omega (arith, ap (λ (t : ℕ). q * t) (pow-suc 2 k))

-- `(q << k) | r` is a sum where `r` has at most `k` bits.
pub bit_or_disjoint : (k q r : ℕ) → r < 2 ^ k → bit_or (q * 2 ^ k) r ≡ q * 2 ^ k + r
bit_or_disjoint zero q r h = ground (arith, bit_or-zero q q)
bit_or_disjoint (suc k) q r h = ground (
  arith,
  bit_or_half (q * 2 ^ suc k) r,
  twice_pow q k,
  pow-suc 2 k,
  bit_or_disjoint k q (r / 2) (omega (arith, pow-suc 2 k)),
)

bit_and_nibble : (a : ℕ) → bit_and a 15 ≡ a % 16
bit_and_nibble a = omega (
  arith,
  bit_and_half a 15,
  bit_and_half (a / 2) 7,
  bit_and_half (a / 2 / 2) 3,
  bit_and_half (a / 2 / 2 / 2) 1,
  bit_and-zero (a / 2 / 2 / 2 / 2) (a / 2 / 2 / 2 / 2) (omega arith),
)

-- `a & 0xFF` keeps the low byte.
pub bit_and_byte : (a : ℕ) → bit_and a 0xFF ≡ a % 256
bit_and_byte a = omega (
  arith,
  bit_and_half a 255,
  bit_and_half (a / 2) 127,
  bit_and_half (a / 2 / 2) 63,
  bit_and_half (a / 2 / 2 / 2) 31,
  bit_and_nibble (a / 2 / 2 / 2 / 2),
)
