-- ===== src/Meta/Totals.antt =====
-- Sums over the chunks of a file (rstr_core/src/meta.rs).
use rstr.Prelude.{
  ℕ, zero, suc, ◌+◌, ◌≤◌, ◌<◌, ◌≡◌, Option, none, some, List, [], ◌∷◌, length, get_elem?, All, ap,
  drop, length-drop, arith, ◌==◌, Bool-cases, inl, inr, subst, false,
}
use rstr.Meta.Types.{Chunk}
use rstr.Meta.Slices.{Describes}
use rstr.Meta.Index.{contains}
use rstr.Meta.Members.{Distinct, without, without-Distinct, absent-without, without-below}

-- The sizes at these positions, added up.
abbrev pub sum : (ℕ → ℕ) → List ℕ → ℕ
sum f [] = 0
sum f (i ∷ members) = f i + sum f members

-- The sizes at the first positions.
abbrev front : ℕ → (ℕ → ℕ) → ℕ
front zero f = 0
front (suc n) f = f 0 + front n (λ i. f (suc i))

front-last : (n : ℕ) (f : ℕ → ℕ) → front (suc n) f ≡ front n f + f n
front-last zero f = omega arith
front-last (suc n) f = omega (arith, front-last n (λ i. f (suc i)))

sum-without :
    (f : ℕ → ℕ) (n : ℕ) (members : List ℕ)
    → Distinct members
    → sum f members ≤ f n + sum f (without n members)
unfolding without
sum-without f n [] d = omega arith
sum-without f n (i ∷ members) d = elim (Bool-cases (i == n)) [
  | inl same ↦
      let here : i ≡ n = ground arith in
      let gone : without n members ≡ members =
        absent-without n members (subst (λ k. contains members k ≡ false) here d.0) in
      rw same (rw gone (omega (arith, ap f here)))
  | inr other ↦ rw other (omega (arith, sum-without f n members d.1))
]

-- Distinct positions below a bound.
sum-front :
    (f : ℕ → ℕ) (n : ℕ) (members : List ℕ)
    → Distinct members
    → All (λ i. i < n) members
    → sum f members ≤ front n f
sum-front f zero [] d h = omega arith
sum-front f zero (i ∷ members) d h = absurd (omega (arith, h.0))
sum-front f (suc n) members d h = omega (
  arith,
  front-last n f,
  sum-without f n members d,
  sum-front f n (without n members) (without-Distinct n members d) (without-below n members h),
)

abbrev pub size_of : Option Chunk → ℕ
size_of none = 0
size_of (some c) = c.size

abbrev pub size_at : List Chunk → ℕ → ℕ
size_at chunks i = size_of (get_elem? chunks i)

front-size_at :
    (hash : List ℕ → ℕ) (offset : ℕ) (chunks : List Chunk) (bytes : List ℕ)
    → Describes hash offset chunks bytes
    → front (length chunks) (size_at chunks) ≡ length bytes
front-size_at hash offset [] bytes d = omega (arith, ap length d)
front-size_at hash offset (c ∷ chunks) bytes d = omega (
  arith,
  front-size_at hash (offset + c.size) chunks (drop c.size bytes) d.5,
  length-drop c.size bytes,
  d.3,
)

-- Different chunks of a file are together no longer than the file.
pub sum-le_length :
    (hash : List ℕ → ℕ) (chunks : List Chunk) (file : List ℕ) (members : List ℕ)
    → Describes hash 0 chunks file
    → Distinct members
    → All (λ i. i < length chunks) members
    → sum (size_at chunks) members ≤ length file
sum-le_length hash chunks file members described d h = omega (
  arith,
  front-size_at hash 0 chunks file described,
  sum-front (size_at chunks) (length chunks) members d h,
)
