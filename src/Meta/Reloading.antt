-- ===== src/Meta/Reloading.antt =====
-- What is on the disk of an index that was valid (`MetaIndex::save` and `MetaIndex::load` of
-- rstr_core/src/meta.rs).
use rstr.Prelude.{◌≡◌, ◌⊎◌, none, [], arith, inl, inr, Option-cases, subst, sym}
use rstr.Prelude.Exec.{ok}
use rstr.Meta.Types.{MetaIndex}
use rstr.Meta.Received.{IsValid}
use rstr.Meta.Storage.{Bincode, Disk, load, save, empty_index}

module _ (B : Bincode) where
  -- What the next start would load from the disk, if anything, is valid.
  abbrev pub HoldsValid : Disk → Type 0
  HoldsValid disk = (index : MetaIndex) → load B disk ≡ ok index → IsValid index

  -- What is loaded after a save is what was saved, or nothing, or what was on the disk before.
  load-save_cases :
      B.decode [] ≡ none
      → (index : MetaIndex) (disk : Disk) (loaded : MetaIndex)
      → load B (save B index disk).1 ≡ ok loaded
      → (loaded ≡ index) ⊎ (loaded ≡ empty_index) ⊎ (load B disk ≡ ok loaded)
  unfolding load save
  load-save_cases nothing index disk loaded h = elim (Option-cases (B.encode index)) [
    | inl refused ↦ ground (arith, refused, nothing)
    | inr (bytes, encoded) ↦ ground (arith, encoded, B.decode-encode index bytes encoded)
  ]

  -- Saving a valid index, whatever comes of it, leaves such a disk, where the empty file that a
  -- failed encoding leaves is no encoding of an index.
  pub save-HoldsValid :
      B.decode [] ≡ none
      → (index : MetaIndex) (disk : Disk) → IsValid index
      → HoldsValid disk
      → HoldsValid (save B index disk).1
  save-HoldsValid nothing index disk v held loaded h =
      elim (load-save_cases nothing index disk loaded h) [
        | inl same ↦ subst IsValid (sym same) v
        | inr (inl empty) ↦ subst IsValid (sym empty) (record { paths = tt; received = tt })
        | inr (inr before) ↦ held loaded before
      ]
