-- ===== src/Meta/Slices.antt =====
-- Chunks that describe the bytes of a file (rstr_core/src/meta.rs).
use rstr.Prelude.{
  ℕ, zero, suc, length-drop, drop-drop, ◌+◌, ◌≤◌, ◌<◌, ◌≡◌, refl, sym, ap, ◌∙◌, subst, some, List,
  [], ◌∷◌, ◌++◌, length, take, drop, get_elem?, ◌-◌, length-append, take-length, drop-length, arith,
  ltb, Bool-cases, inl, inr,
}
use rstr.Meta.Types.{Chunk}
use rstr.Meta.Create.{chunk_limit, buffer_limit}

-- The chunks from an offset on describe the bytes from there on: each begins where the one before it
-- ends, is not empty, fits its field, and has the hash of its bytes; together they leave no byte out.
abbrev pub Describes : (List ℕ → ℕ) → ℕ → List Chunk → List ℕ → Type 0
Describes hash offset [] bytes = bytes ≡ []
Describes hash offset (c ∷ chunks) bytes =
    (c.offset ≡ offset)
    × (0 < c.size)
    × (c.size < chunk_limit + buffer_limit)
    × (c.size ≤ length bytes)
    × (c.hash ≡ hash (take c.size bytes))
    × Describes hash (offset + c.size) chunks (drop c.size bytes)

-- Taking and dropping in front of bytes that follow.
take-append_le : (n : ℕ) (xs ys : List ℕ) → n ≤ length xs → take n (xs ++ ys) ≡ take n xs
take-append_le zero xs ys h = refl
take-append_le (suc n) [] ys h = absurd (omega arith)
take-append_le (suc n) (x ∷ xs) ys h = ap (◌∷◌ x) (take-append_le n xs ys (omega arith))

drop-append_le : (n : ℕ) (xs ys : List ℕ) → n ≤ length xs → drop n (xs ++ ys) ≡ drop n xs ++ ys
drop-append_le zero xs ys h = refl
drop-append_le (suc n) [] ys h = absurd (omega arith)
drop-append_le (suc n) (x ∷ xs) ys h = drop-append_le n xs ys (omega arith)

-- One more chunk at the end, for the bytes that were read since the last one.
pub Describes-push :
    (hash : List ℕ → ℕ) (offset : ℕ) (chunks : List Chunk) (bytes more : List ℕ) (c : Chunk)
    → Describes hash offset chunks bytes
    → c.offset ≡ offset + length bytes
    → c.size ≡ length more
    → 0 < c.size
    → c.size < chunk_limit + buffer_limit
    → c.hash ≡ hash more
    → Describes hash offset (chunks ++ c ∷ []) (bytes ++ more)
Describes-push hash offset [] bytes more c d at size full fits h = rw d (
  omega (arith, ap length d),
  full,
  fits,
  omega arith,
  h ∙ ap hash (sym (ap (λ (n : ℕ). take n more) size ∙ take-length more)),
  ap (λ (n : ℕ). drop n more) size ∙ drop-length more,
)
Describes-push hash offset (x ∷ chunks) bytes more c d at size full fits h = (
  d.0,
  d.1,
  d.2,
  omega (arith, d.3, length-append bytes more),
  d.4 ∙ ap hash (sym (take-append_le x.size bytes more d.3)),
  rw (drop-append_le x.size bytes more d.3) (
      Describes-push hash (offset + x.size) chunks (drop x.size bytes) more c d.5
        (omega (arith, at, length-drop x.size bytes, d.3)) size full fits h),
)

-- Reading a chunk by its position: it is the slice of the file that its offset and size name.
pub Describes-get_elem? :
    (hash : List ℕ → ℕ) (offset : ℕ) (chunks : List Chunk) (bytes : List ℕ) (i : ℕ) (c : Chunk)
    → Describes hash offset chunks bytes
    → get_elem? chunks i ≡ some c
    → (offset ≤ c.offset)
      × (c.offset + c.size ≤ offset + length bytes)
      × (c.hash ≡ hash (take c.size (drop (c.offset - offset) bytes)))
      × (0 < c.size)
      × (c.size < chunk_limit + buffer_limit)
Describes-get_elem? hash offset [] bytes i c d at = cc
Describes-get_elem? hash offset (x ∷ chunks) bytes zero c d at =
    let same : x ≡ c = ground (arith, at) in
    subst
      (λ y.
        (offset ≤ y.offset)
        × (y.offset + y.size ≤ offset + length bytes)
        × (y.hash ≡ hash (take y.size (drop (y.offset - offset) bytes)))
        × (0 < y.size)
        × (y.size < chunk_limit + buffer_limit))
      same
      (
        omega (arith, d.0),
        omega (arith, d.0, d.3),
        d.4
            ∙ ap (λ (n : ℕ). hash (take x.size (drop n bytes))) {x = 0} {y = x.offset - offset}
                (omega (arith, d.0)),
        d.1,
        d.2,
      )
Describes-get_elem? hash offset (x ∷ chunks) bytes (suc i) c d at =
    let later = Describes-get_elem? hash (offset + x.size) chunks (drop x.size bytes) i c d.5 at in
    (
      omega (arith, later.0),
      omega (arith, later.1, length-drop x.size bytes, d.3),
      later.2
          ∙ ap (λ bs. hash (take c.size bs))
              (drop-drop x.size (c.offset - (offset + x.size)) (c.offset - offset) bytes
                (omega (arith, later.0))),
      later.3,
      later.4,
    )

-- A chunk ends before every later one begins.
pub Describes-apart :
    (hash : List ℕ → ℕ) (offset : ℕ) (chunks : List Chunk) (bytes : List ℕ) (i j : ℕ) (c d : Chunk)
    → Describes hash offset chunks bytes
    → get_elem? chunks i ≡ some c
    → get_elem? chunks j ≡ some d
    → i < j
    → c.offset + c.size ≤ d.offset
Describes-apart hash offset [] bytes i j c d h at_i at_j lt = cc
Describes-apart hash offset (x ∷ chunks) bytes i zero c d h at_i at_j lt = absurd (omega arith)
Describes-apart hash offset (x ∷ chunks) bytes zero (suc j) c d h at_i at_j lt =
    let same : x ≡ c = ground (arith, at_i) in
    let later =
      Describes-get_elem? hash (offset + x.size) chunks (drop x.size bytes) j d h.5 at_j in
    subst (λ y. y.offset + y.size ≤ d.offset) same (omega (arith, later.0, h.0))
Describes-apart hash offset (x ∷ chunks) bytes (suc i) (suc j) c d h at_i at_j lt =
    Describes-apart hash (offset + x.size) chunks (drop x.size bytes) i j c d h.5 at_i at_j
      (omega arith)

-- Every byte belongs to a chunk.
pub Describes-covers :
    (hash : List ℕ → ℕ) (offset : ℕ) (chunks : List Chunk) (bytes : List ℕ) (k : ℕ)
    → Describes hash offset chunks bytes
    → k < length bytes
    → (i : ℕ) × (c : Chunk) × (get_elem? chunks i ≡ some c)
      × (c.offset ≤ offset + k)
      × (offset + k < c.offset + c.size)
Describes-covers hash offset [] bytes k h lt = absurd (omega (arith, ap length h))
Describes-covers hash offset (x ∷ chunks) bytes k h lt = elim (Bool-cases (ltb k x.size)) [
  | inl here ↦
      (0, x, refl, omega (arith, h.0), (let k_in : k < x.size = ground arith in omega (arith, h.0)))
  | inr beyond ↦
      let past : x.size ≤ k = ground arith in
      let (i, c, at, from, to) =
        Describes-covers hash (offset + x.size) chunks (drop x.size bytes) (k - x.size) h.5
          (omega (arith, length-drop x.size bytes)) in
      (suc i, c, at, omega arith, omega arith)
]
