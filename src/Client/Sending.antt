-- ===== src/Client/Sending.antt =====
-- The parts that the task of `process_request_chunk` (rstr_client/src/client.rs) sends are the
-- chunk, in order.
use rstr.Prelude.{
  ℕ, zero, suc, ◌+◌, ◌-◌, ◌%◌, ◌^◌, ◌≤◌, ◌<◌, ◌≡◌, refl, sym, ap, ◌∙◌, min, false, List, [], ◌∷◌,
  ◌++◌, length, ltb, ◌==◌, take, concat, All, arith, Bool-cases, inl, inr, some, drop, get_elem?,
  take-length, append-nil,
}
use rstr.Meta.Types.{Chunk}
use rstr.Meta.Create.{buffer_limit}
use rstr.Meta.Slices.{Describes, Describes-get_elem?}
use rstr.Client.Transmit.{parts}

take_whole :
    (n : ℕ) (xs ys : List ℕ) → length xs ≤ n → take n (xs ++ ys) ≡ xs ++ take (n - length xs) ys
take_whole n [] ys h = ap (λ (m : ℕ). take m ys) (omega arith)
take_whole zero (x ∷ xs) ys h = absurd (omega arith)
take_whole (suc n) (x ∷ xs) ys h =
    ap (◌∷◌ x) (take_whole n xs ys (omega arith) ∙ ap (λ (m : ℕ). xs ++ take m ys) (omega arith))

take_part : (n : ℕ) (xs ys : List ℕ) → n ≤ length xs → take n (xs ++ ys) ≡ take n xs
take_part zero xs ys h = refl
take_part (suc n) [] ys h = absurd (omega arith)
take_part (suc n) (x ∷ xs) ys h = ap (◌∷◌ x) (take_part n xs ys (omega arith))

pub take_beyond : {A : Type 0} → (n : ℕ) (xs : List A) → length xs ≤ n → take n xs ≡ xs
take_beyond zero [] h = refl
take_beyond zero (x ∷ xs) h = absurd (omega arith)
take_beyond (suc n) [] h = refl
take_beyond (suc n) (x ∷ xs) h = ap (◌∷◌ x) (take_beyond n xs (omega arith))

-- Nothing more is sent once the whole chunk is counted.
parts_done :
    (size count : ℕ) (buffers : List (List ℕ)) → size ≤ count → parts size count buffers ≡ []
unfolding parts
parts_done size count [] h = ground arith
parts_done size count (b ∷ buffers) h = ground arith

pub concat-parts :
    (size count : ℕ) (buffers : List (List ℕ))
    → All (λ b. (0 < length b) × (length b ≤ buffer_limit)) buffers
    → count ≤ size
    → size + buffer_limit < 2 ^ 32
    → concat (parts size count buffers) ≡ take (size - count) (concat buffers)
unfolding parts
concat-parts size count [] bufs below small = ground (arith, take_beyond {A = ℕ} (size - count) [])
concat-parts size count (b ∷ buffers) bufs below small = elim (Bool-cases (ltb count size)) [
  | inr full ↦ rw (full, parts) (let e : size - count ≡ 0 = ground arith in rw e)
  | inl more ↦
      let some_bytes : (length b == 0) ≡ false = ground (arith, bufs.0.0) in
      let no_wrap : length b % 2 ^ 32 ≡ length b = omega (arith, bufs.0.1) in
      rw (more, parts)
        (rw (some_bytes, no_wrap)
          (elim (Bool-cases (ltb (length b) (size - count))) [
            | inl whole ↦
                let all : min (size - count) (length b) ≡ length b = ground arith in
                let fits : length b ≤ size - count = ground arith in
                let next : (count + length b) % 2 ^ 32 ≡ count + length b = omega arith in
                rw (all, next, take-length b)
                  (ap (◌++◌ b) (
                      concat-parts size (count + length b) buffers bufs.1 (omega arith) small
                      ∙ ap (λ (n : ℕ). take n (concat buffers)) {y = size - count - length b}
                          (omega arith))
                    ∙ sym (take_whole (size - count) b (concat buffers) fits))
            | inr part ↦
                let few : min (size - count) (length b) ≡ size - count = ground arith in
                let fits : size - count ≤ length b = ground arith in
                let next : (count + length b) % 2 ^ 32 ≡ count + length b =
                  omega (arith, bufs.0.1) in
                rw
                  (
                    few,
                    next,
                    parts_done size (count + length b) buffers (omega arith),
                    append-nil (take (size - count) b),
                  )
                  (sym (take_part (size - count) b (concat buffers) fits))
          ]))
]

-- For a file that still is what its metadata was made of, the parts that are sent for a chunk of it
-- are together the chunk's bytes and have its hash, however the file system cuts up what is read, in
-- buffers that are not empty and of at most 64 KiB.
pub parts_are_the_chunk :
    (hash : List ℕ → ℕ) (chunks : List Chunk) (file : List ℕ) (i : ℕ) (c : Chunk)
    (buffers : List (List ℕ))
    → Describes hash 0 chunks file
    → get_elem? chunks i ≡ some c
    → All (λ b. (0 < length b) × (length b ≤ buffer_limit)) buffers
    → concat buffers ≡ drop c.offset file
    → (concat (parts c.size 0 buffers) ≡ take c.size (drop c.offset file))
      × (hash (concat (parts c.size 0 buffers)) ≡ c.hash)
parts_are_the_chunk hash chunks file i c buffers described at bufs read =
    let slice = Describes-get_elem? hash 0 chunks file i c described at in
    let small : c.size + buffer_limit < 2 ^ 32 = omega (arith, slice.4) in
    let sent : concat (parts c.size 0 buffers) ≡ take c.size (drop c.offset file) =
      concat-parts c.size 0 buffers bufs (omega arith) small
      ∙ ap (λ (n : ℕ). take n (concat buffers)) {y = c.size} (omega arith)
      ∙ ap (take c.size) read in
    (
      sent,
      ap hash sent
          ∙ ap (λ (n : ℕ). hash (take c.size (drop n file))) {y = c.offset - 0} (omega arith)
          ∙ sym slice.2,
    )
