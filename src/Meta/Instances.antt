-- ===== src/Meta/Instances.antt =====
-- Concrete instances of the crates behind rstr_core/src/meta.rs: they show that the laws which the
-- development asks of those crates can hold.
use rstr.Prelude.{
  ℕ, zero, suc, ◌+◌, ◌≡◌, ap, ◌∙◌, false, Option, none, some, List, [], ◌∷◌, ◌++◌, foldl, concat,
  arith,
}
use rstr.Prelude.Int.{ℤ, pos}
use rstr.Prelude.Text.{Text}
use rstr.Meta.Types.{Chunk, MetaIndexEntry, MetaIndex}
use rstr.Meta.Hash.{Hasher, Floats}
use rstr.Meta.Storage.{Bincode, empty_index}

-- A hash that is the sum of the bytes.
abbrev pub sum : List ℕ → ℕ
sum [] = 0
sum (b ∷ bytes) = b + sum bytes

sum-append : (xs ys : List ℕ) → sum (xs ++ ys) ≡ sum xs + sum ys
sum-append [] ys = omega arith
sum-append (x ∷ xs) ys = omega (arith, sum-append xs ys)

sum-foldl :
    (s : ℕ) (parts : List (List ℕ))
    → foldl (λ (t : ℕ) (bs : List ℕ). t + sum bs) s parts ≡ s + sum (concat parts)
sum-foldl s [] = omega arith
sum-foldl s (b ∷ parts) = sum-foldl (s + sum b) parts ∙ omega (arith, sum-append b (concat parts))

pub sum-parts :
    (parts : List (List ℕ))
    → foldl (λ (t : ℕ) (bs : List ℕ). t + sum bs) 0 parts ≡ sum (concat parts)
sum-parts parts = omega (arith, sum-foldl 0 parts)

abbrev pub sum_hasher : Hasher
sum_hasher = record {
  State = ℕ;
  new = 0;
  write = λ t bs. t + sum bs;
  reset = λ t. 0;
  digest = λ t. t;
  hash = sum;
  digest-new = sum-parts;
  digest-reset = λ s. sum-parts;
}

-- Progress is not measured.
abbrev pub no_floats : Floats
no_floats = record { F32 = ℕ; zero_f32 = 0; one_f32 = 1; ratio = λ a b. 0; moved = λ a b. false }

-- An encoding of the indices with at most one entry, of a file without chunks that
-- is not stored yet, or of one with two chunks.
abbrev pub encode_entry :
    Text → List ℕ → ℤ → ℤ → List Chunk → List MetaIndexEntry → ℕ → ℕ → Text → Option (List ℕ)
encode_entry [] [] (pos f) (pos m) [] [] h s p = some (1 ∷ h ∷ s ∷ f ∷ m ∷ p)
encode_entry (l ∷ []) received (pos f) (pos m) (c ∷ d ∷ []) [] h s (x ∷ []) =
    some (
      2 ∷ x ∷ l ∷ h ∷ s ∷ f ∷ m ∷ c.hash ∷ c.offset ∷ c.size ∷ d.hash ∷ d.offset ∷ d.size
      ∷ received)
encode_entry _ _ _ _ _ _ h s p = none

abbrev pub encode_small : List MetaIndexEntry → Option (List ℕ)
encode_small [] = some (0 ∷ [])
encode_small (e ∷ entries) =
    encode_entry e.local_path e.received_chunks e.meta.file_modified e.meta.meta_modified
      e.meta.chunks entries e.meta.hash e.meta.size e.meta.path

abbrev pub one_entry : ℕ → ℕ → ℕ → ℕ → Text → MetaIndex
one_entry h s f m p = record {
  entries =
      record {
        local_path = [];
        received_chunks = [];
        meta = record {
          path = p;
          hash = h;
          size = s;
          file_modified = pos f;
          meta_modified = pos m;
          chunks = [];
        };
      }
      ∷ [];
}

abbrev pub entry_of : Text → List ℕ → ℤ → ℤ → List Chunk → ℕ → ℕ → Text → MetaIndexEntry
entry_of local_path received fm mm chunks h s p = record {
  local_path = local_path;
  received_chunks = received;
  meta = record {
    path = p;
    hash = h;
    size = s;
    file_modified = fm;
    meta_modified = mm;
    chunks = chunks;
  };
}

abbrev pub decode_small : List ℕ → Option MetaIndex
decode_small (zero ∷ []) = some empty_index
decode_small (suc zero ∷ h ∷ s ∷ f ∷ m ∷ p) = some (one_entry h s f m p)
decode_small (suc (suc zero) ∷ x ∷ l ∷ h ∷ s ∷ f ∷ m ∷ a ∷ b ∷ c ∷ d ∷ e ∷ g ∷ received) =
    some (record {
      entries =
          entry_of (l ∷ []) received (pos f) (pos m)
            (record { hash = a; offset = b; size = c }
              ∷ record { hash = d; offset = e; size = g }
              ∷ [])
            h s (x ∷ [])
          ∷ [];
    })
decode_small _ = none

decode-encode_entry :
    (l : Text) (r : List ℕ) (fm mm : ℤ) (chunks : List Chunk) (entries : List MetaIndexEntry)
    (h s : ℕ) (p : Text) (bytes : List ℕ)
    → encode_entry l r fm mm chunks entries h s p ≡ some bytes
    → decode_small bytes ≡ some (record { entries = entry_of l r fm mm chunks h s p ∷ entries })
decode-encode_entry [] [] (pos f) (pos m) [] [] h s p bytes e =
    ap decode_small {x = bytes} {y = 1 ∷ h ∷ s ∷ f ∷ m ∷ p} (cc)
decode-encode_entry (l ∷ []) received (pos f) (pos m) (c ∷ d ∷ []) [] h s (x ∷ []) bytes e =
    ap decode_small {x = bytes}
      {y = 2 ∷ x ∷ l ∷ h ∷ s ∷ f ∷ m ∷ c.hash ∷ c.offset ∷ c.size ∷ d.hash ∷ d.offset ∷ d.size
        ∷ received}
      cc
decode-encode_entry _ _ _ _ _ _ h s p bytes e = cc

pub decode-encode_small :
    (entries : List MetaIndexEntry) (bytes : List ℕ)
    → encode_small entries ≡ some bytes
    → decode_small bytes ≡ some (record { entries = entries })
decode-encode_small [] bytes h = ap decode_small {x = bytes} {y = 0 ∷ []} (cc)
decode-encode_small (e ∷ entries) bytes h =
    decode-encode_entry e.local_path e.received_chunks e.meta.file_modified e.meta.meta_modified
      e.meta.chunks entries e.meta.hash e.meta.size e.meta.path bytes h

abbrev pub small_bincode : Bincode
small_bincode = record {
  encode = λ index. encode_small index.entries;
  decode = decode_small;
  decode-encode = λ index bytes h. decode-encode_small index.entries bytes h;
}
