-- ===== src/Meta/Partition.antt =====
-- The chunks that `create_for_file` (rstr_core/src/meta.rs) makes are the file, cut into pieces.
use rstr.Prelude.{ℕ, ◌+◌, ◌≡◌, List, ◌++◌, length}
use rstr.Prelude.Text.{Text}
use rstr.Meta.Types.{Meta}
use rstr.Meta.Hash.{Hasher, Floats, Absorbed}
use rstr.Meta.Create.{Hashing}
use rstr.Meta.Slices.{Describes}

module _ (H : Hasher) (F : Floats) where
  -- After the bytes `closed`, which are in chunks, and `rest`, which are not yet.
  record IsHashing (s : Hashing H F) (closed rest : List ℕ) : Type 0 where
    described : Describes H.hash 0 s.chunks closed
    whole : Absorbed H s.file_hash (closed ++ rest)
    part : Absorbed H s.chunk_hash rest
    offset : s.chunk_offset ≡ length closed
    size : s.file_size ≡ length closed + length rest
    pending : s.chunk_size ≡ length rest
