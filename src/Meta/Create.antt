-- ===== src/Meta/Create.antt =====
-- `MetaIndex::create_for_file` of rstr_core/src/meta.rs: the loop that hashes a file as it comes in
-- buffers and cuts it into chunks. The reading task sends what `fill_buf` returns, an empty buffer
-- last, and then drops its end of the channel.
use rstr.Prelude.{
  ℕ, ◌+◌, ◌*◌, ◌%◌, ◌^◌, true, false, Option, none, some, List, [], ◌∷◌, ◌++◌, length, ltb, ◌==◌,
  if◌then◌else◌,
}
use rstr.Prelude.Int.{ℤ}
use rstr.Prelude.Text.{Text}
use rstr.Prelude.Exec.{Outcome, ok, err}
use rstr.Meta.Types.{Chunk, Meta, CreateMetadataError}
use rstr.Meta.Hash.{Hasher, Floats}

-- The file system's side of a file: its time of modification, its length, and the buffers that
-- reading it returns before the empty one.
pub record LocalFile : Type 0 where
  pub modified : ℤ
  pub len : ℕ
  pub buffers : List (List ℕ)

-- `16 * 1024 * 1024` bytes close a chunk; a read returns at most `64 * 1024`.
abbrev pub chunk_limit : ℕ
chunk_limit = 16 * 1024 * 1024

abbrev pub buffer_limit : ℕ
buffer_limit = 64 * 1024

module _ (H : Hasher) (F : Floats) where
  open H use {State, new, write, reset, digest}
  open F use {F32, ratio, zero_f32, one_f32}

  -- The local variables of the loop.
  pub record Hashing : Type 0 where
    pub file_hash : State
    pub chunk_hash : State
    pub chunk_offset : ℕ
    pub file_size : ℕ
    pub chunk_size : ℕ
    pub chunks : List Chunk
    pub progress : F32

  abbrev pub start : Hashing
  start = record {
    file_hash = new;
    chunk_hash = new;
    chunk_offset = 0;
    file_size = 0;
    chunk_size = 0;
    chunks = [];
    progress = zero_f32;
  }

  -- The arm `Some(data)`, down to the test of the chunk's size.
  unfoldable pub absorb : ℕ → Hashing → List ℕ → Hashing
  absorb total_file_size s buffer =
      let file_size : ℕ = (s.file_size + length buffer) % 2 ^ 64 in
      record s {
        file_hash = write s.file_hash buffer;
        chunk_hash = write s.chunk_hash buffer;
        chunk_size = (s.chunk_size + length buffer) % 2 ^ 64;
        file_size = file_size;
        progress = ratio file_size total_file_size;
      }

  -- `if chunk_size > 0 { … }`
  unfoldable pub cut : Hashing → Hashing
  cut s =
      if ltb 0 s.chunk_size
      then record s {
        chunk_hash = reset s.chunk_hash;
        chunks =
            s.chunks
            ++ (record {
              hash = digest s.chunk_hash;
              offset = s.chunk_offset;
              size = s.chunk_size % 2 ^ 32;
            }
                ∷ []);
        chunk_offset = s.file_size;
        chunk_size = 0;
      }
      else s

  -- The loop over what the channel delivers; at its end `recv` returns `None`.
  unfoldable pub hash_loop : ℕ → Hashing → List (List ℕ) → Hashing
  unfolding absorb cut
  hash_loop total_file_size s [] = cut s
  hash_loop total_file_size s (buffer ∷ rest) =
      let s' : Hashing = absorb total_file_size s buffer in
      elim (ltb s'.chunk_size chunk_limit) [
        | true ↦ hash_loop total_file_size s' rest
        | false ↦ elim (length buffer == 0) [
          | true ↦ cut s'
          | false ↦ hash_loop total_file_size (cut s') rest
        ]
      ]

  -- The metadata, or the error, and the progress that was reported last.
  unfoldable pub create_for_file :
      Option LocalFile → Text → ℤ → Outcome CreateMetadataError Meta × F32
  unfolding hash_loop
  create_for_file none remote_path now = (err CreateMetadataError.file_not_found, zero_f32)
  create_for_file (some file) remote_path now =
      let s : Hashing = hash_loop file.len start (file.buffers ++ [] ∷ []) in
      (
        ok (record {
          path = remote_path;
          hash = digest s.file_hash;
          size = s.file_size;
          file_modified = file.modified;
          meta_modified = now;
          chunks = s.chunks;
        }),
        one_f32,
      )
