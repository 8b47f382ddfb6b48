-- ===== src/Meta/Types.antt =====
-- The types of rstr_core/src/meta.rs. A `u32` and a `u64` are numbers, an `i64` is an integer, and
-- a `HashSet<u32>` is the list of its members.
use rstr.Prelude.{ℕ, List}
use rstr.Prelude.Int.{ℤ}
use rstr.Prelude.Text.{Text}

pub data ReadFromFileError : Type 0 where
  io_error deserialization_error : ReadFromFileError

pub data WriteToFileError : Type 0 where
  io_error serialization_error : WriteToFileError

pub data CreateMetadataError : Type 0 where
  file_not_found io_error : CreateMetadataError

pub data MetaIndexError : Type 0 where
  file_not_found : MetaIndexError

pub data MarkReceivedError : Type 0 where
  file_not_found chunk_not_found : MarkReceivedError

pub record Chunk : Type 0 where
  pub hash : ℕ
  pub offset : ℕ
  pub size : ℕ

pub record Meta : Type 0 where
  pub path : Text
  pub hash : ℕ
  pub size : ℕ
  pub file_modified : ℤ
  pub meta_modified : ℤ
  pub chunks : List Chunk

pub record MetaIndexEntry : Type 0 where
  pub local_path : Text
  pub received_chunks : List ℕ
  pub meta : Meta

pub record MetaIndex : Type 0 where
  pub entries : List MetaIndexEntry
