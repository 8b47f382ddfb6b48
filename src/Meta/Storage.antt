-- ===== src/Meta/Storage.antt =====
-- `MetaIndex::load` and `MetaIndex::save` of rstr_core/src/meta.rs, over a file `index` on a disk.
use rstr.Prelude.{
  ℕ, ◌≡◌, Bool, true, Option, none, some, List, [], if◌then◌else◌, arith, Option-cases, inl, inr,
}
use rstr.Prelude.Exec.{Exec, Outcome, ok, err, panic}
use rstr.Meta.Types.{MetaIndex, ReadFromFileError, WriteToFileError}

-- The crate bincode on the index: encoding may fail (on a path that is not Unicode), and what was
-- encoded decodes to the same value.
pub record Bincode : Type 0 where
  pub encode : MetaIndex → Option (List ℕ)
  pub decode : List ℕ → Option MetaIndex
  pub decode-encode :
      (index : MetaIndex) (bytes : List ℕ) → encode index ≡ some bytes → decode bytes ≡ some index

-- The data directory: the file's contents if it is there, and what the system allows.
pub record Disk : Type 0 where
  pub contents : Option (List ℕ)
  pub can_open : Bool
  pub can_read : Bool
  pub can_write : Bool

abbrev pub empty_index : MetaIndex
empty_index = record { entries = [] }

module _ (B : Bincode) where
  decoded : Option MetaIndex → Outcome ReadFromFileError MetaIndex
  decoded none = err ReadFromFileError.deserialization_error
  decoded (some index) = ok index

  -- A file that cannot be opened, for whatever reason, is an empty index.
  unfoldable pub load : Disk → Outcome ReadFromFileError MetaIndex
  unfolding decoded
  load disk = elim disk.contents [
    | none ↦ ok empty_index
    | some bytes ↦
        if disk.can_open
        then (if disk.can_read then decoded (B.decode bytes) else err ReadFromFileError.io_error)
        else ok empty_index
  ]

  write_encoded : Option (List ℕ) → Exec WriteToFileError Disk Unit
  write_encoded none disk = (err WriteToFileError.serialization_error, disk)
  write_encoded (some bytes) disk = (ok tt, record disk { contents = some bytes })

  -- `File::create` empties the file; the `unwrap`s panic where the disk refuses.
  unfoldable pub save : MetaIndex → Exec WriteToFileError Disk Unit
  unfolding write_encoded
  save index disk =
      if disk.can_write
      then write_encoded (B.encode index) (record disk { contents = some [] })
      else (panic, disk)

  -- What was saved without an error is loaded again, where the file can be opened and read.
  pub load-save :
      (index : MetaIndex) (disk : Disk)
      → disk.can_open ≡ true
      → disk.can_read ≡ true
      → (save index disk).0 ≡ ok tt
      → load (save index disk).1 ≡ ok index
  unfolding load save
  load-save index disk opens reads done = elim (Option-cases (B.encode index)) [
    | inl refused ↦ ground (arith, refused)
    | inr (bytes, encoded) ↦ ground (arith, encoded, B.decode-encode index bytes encoded)
  ]

  -- A save whose encoding fails has emptied the file by then: whatever was saved before is lost, and
  -- if the empty file is no encoding, the next start fails.
  pub save_loses_index :
      (index : MetaIndex) (disk : Disk)
      → disk.can_write ≡ true
      → disk.can_open ≡ true
      → disk.can_read ≡ true
      → B.encode index ≡ none
      → B.decode [] ≡ none
      → ((save index disk).0 ≡ err WriteToFileError.serialization_error)
        × (load (save index disk).1 ≡ err ReadFromFileError.deserialization_error)
  unfolding load save
  save_loses_index index disk writes opens reads refused empty = ground arith
