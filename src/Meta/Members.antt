-- ===== src/Meta/Members.antt =====
-- The members of a `HashSet<u32>`, kept as a list (rstr_core/src/meta.rs).
use rstr.Prelude.{
  ℕ, zero, suc, ◌+◌, ◌≤◌, ◌<◌, ◌≡◌, refl, false, List, [], ◌∷◌, ◌++◌, length, ◌==◌, arith,
  if◌then◌else◌, All, All-append, Bool-cases, inl, inr, ◌||◌,
}
use rstr.Meta.Index.{contains, insert}

-- No number twice.
abbrev pub Distinct : List ℕ → Type 0
Distinct [] = Unit
Distinct (i ∷ members) = (contains members i ≡ false) × Distinct members

contains-append :
    (xs ys : List ℕ) (i : ℕ) → contains (xs ++ ys) i ≡ (contains xs i || contains ys i)
unfolding contains
contains-append [] ys i = refl
contains-append (x ∷ xs) ys i = ground (arith, contains-append xs ys i)

push-Distinct :
    (members : List ℕ) (i : ℕ)
    → contains members i ≡ false
    → Distinct members
    → Distinct (members ++ i ∷ [])
unfolding contains
push-Distinct [] i new h = (refl, tt)
push-Distinct (j ∷ members) i new h = (
  ground (arith, contains-append members (i ∷ []) j, h.0),
  push-Distinct members i (ground arith) h.1,
)

pub insert-Distinct : (members : List ℕ) (i : ℕ) → Distinct members → Distinct (insert members i)
unfolding insert
insert-Distinct members i h = elim (Bool-cases (contains members i)) [
  | inl old ↦ rw (old, insert) h
  | inr new ↦ rw (new, insert) (push-Distinct members i new h)
]

pub insert-All :
    (P : ℕ → Type 0) (members : List ℕ) (i : ℕ) → P i → All P members → All P (insert members i)
unfolding insert
insert-All P members i pi h = elim (Bool-cases (contains members i)) [
  | inl old ↦ rw (old, insert) h
  | inr new ↦ rw (new, insert) (All-append P members (i ∷ []) h (pi, tt))
]

pub contains-insert :
    (members : List ℕ) (i j : ℕ) → contains (insert members i) j ≡ ((i == j) || contains members j)
unfolding insert contains
contains-insert members i j = ground (arith, contains-append members (i ∷ []) j)

-- At most n numbers are below n: the bound that `chunks_total - received_chunks.len()` needs.
unfoldable pub without : ℕ → List ℕ → List ℕ
without n [] = []
without n (x ∷ xs) = if x == n then without n xs else x ∷ without n xs

contains-without :
    (n i : ℕ) (xs : List ℕ) → contains xs i ≡ false → contains (without n xs) i ≡ false
unfolding without contains
contains-without n i [] h = refl
contains-without n i (x ∷ xs) h = ground (arith, contains-without n i xs)

pub without-Distinct : (n : ℕ) (xs : List ℕ) → Distinct xs → Distinct (without n xs)
unfolding without
without-Distinct n [] h = tt
without-Distinct n (x ∷ xs) h =
    ground (arith, contains-without n x xs h.0, without-Distinct n xs h.1)

pub absent-without : (n : ℕ) (xs : List ℕ) → contains xs n ≡ false → without n xs ≡ xs
unfolding without contains
absent-without n [] h = refl
absent-without n (x ∷ xs) h = ground (arith, absent-without n xs)

length-without : (n : ℕ) (xs : List ℕ) → Distinct xs → length xs ≤ length (without n xs) + 1
unfolding without
length-without n [] h = omega arith
length-without n (x ∷ xs) h = ground (arith, length-without n xs h.1, absent-without n xs)

pub without-below :
    (n : ℕ) (xs : List ℕ) → All (λ i. i < suc n) xs → All (λ i. i < n) (without n xs)
unfolding without
without-below n [] h = tt
without-below n (x ∷ xs) h = ground (arith, h.0, without-below n xs h.1)

pub length-le_bound : (n : ℕ) (xs : List ℕ) → Distinct xs → All (λ i. i < n) xs → length xs ≤ n
length-le_bound zero [] d h = omega arith
length-le_bound zero (x ∷ xs) d h = absurd (omega (arith, h.0))
length-le_bound (suc n) xs d h = omega (
  arith,
  length-without n xs d,
  length-le_bound n (without n xs) (without-Distinct n xs d) (without-below n xs h),
)
