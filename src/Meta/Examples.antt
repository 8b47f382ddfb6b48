-- ===== src/Meta/Examples.antt =====
-- Runs of the index and of the making of metadata (rstr_core/src/meta.rs).
use rstr.Prelude.{false, ap, ℕ, ◌≡◌, refl, true, none, some, List, [], ◌∷◌, arith}
use rstr.Prelude.Int.{ℤ, pos}
use rstr.Prelude.Text.{Text, text_eq}
use rstr.Prelude.Exec.{ok}
use rstr.Meta.Types.{Meta, MetaIndexEntry, MetaIndex}
use rstr.Meta.Index.{find_entry, add_entry, mark_received, receive, change_remote, remove}
use rstr.Meta.Storage.{Disk, load, save, load-save}
use rstr.Meta.Lookup.{find_entry-add_entry, find_entry-mark_received}
use rstr.Meta.Paths.{PathsDiffer, find_entry-remove, change_remote_clash}
use rstr.Meta.Create.{LocalFile}
use rstr.Meta.Instances.{small_bincode, one_entry}

abbrev pub path_a : Text
path_a = 97 ∷ []

abbrev pub path_b : Text
path_b = 98 ∷ []

-- A file of five bytes in two chunks.
abbrev pub meta_of : Text → ℤ → Meta
meta_of path modified = record {
  path = path;
  hash = 15;
  size = 5;
  file_modified = pos 7;
  meta_modified = modified;
  chunks =
      record { hash = 6; offset = 0; size = 3 } ∷ record { hash = 9; offset = 3; size = 2 } ∷ [];
}

abbrev pub entry_at : Text → ℤ → List ℕ → MetaIndexEntry
entry_at path modified received = record {
  local_path = path_b;
  received_chunks = received;
  meta = meta_of path modified;
}

abbrev two_files : MetaIndex
two_files = record { entries = entry_at path_a (pos 3) (0 ∷ []) ∷ entry_at path_b (pos 4) [] ∷ [] }

abbrev good_disk : Disk
good_disk = record { contents = none; can_open = true; can_read = true; can_write = true }

find_entry-add_entry_example :
    find_entry (add_entry two_files (entry_at path_b (pos 9) [])) path_b
    ≡ some (entry_at path_b (pos 9) [])
unfolding text_eq
find_entry-add_entry_example = find_entry-add_entry two_files (entry_at path_b (pos 9) []) path_b

find_entry-mark_received_example :
    ((mark_received path_a 1 two_files).0 ≡ ok tt)
    × (find_entry (mark_received path_a 1 two_files).1 path_a
        ≡ some (receive 1 (entry_at path_a (pos 3) (0 ∷ []))))
unfolding find_entry text_eq
find_entry-mark_received_example =
    find_entry-mark_received two_files path_a path_a 1 (entry_at path_a (pos 3) (0 ∷ [])) refl
      (omega arith)

two_files-PathsDiffer : PathsDiffer two_files.entries
unfolding text_eq
two_files-PathsDiffer = ((refl, tt), (tt, tt))

find_entry-remove_example : find_entry (remove two_files path_a) path_a ≡ none
unfolding text_eq
find_entry-remove_example = find_entry-remove two_files path_a path_a two_files-PathsDiffer

change_remote_clash_example :
    ((change_remote path_a path_b two_files).0 ≡ ok tt)
    × (¬ PathsDiffer (change_remote path_a path_b two_files).1.entries)
unfolding find_entry text_eq
change_remote_clash_example =
    change_remote_clash two_files path_a path_b (entry_at path_a (pos 3) (0 ∷ []))
      (entry_at path_b (pos 4) []) refl refl
      (λ e. let same : false ≡ true = ap (λ p. text_eq p path_b) e in cc)

load-save_example :
    load small_bincode (save small_bincode (one_entry 15 5 7 3 path_a) good_disk).1
    ≡ ok (one_entry 15 5 7 3 path_a)
unfolding save
load-save_example = load-save small_bincode (one_entry 15 5 7 3 path_a) good_disk refl refl refl

abbrev small_file : LocalFile
small_file = record { modified = pos 7; len = 5; buffers = (1 ∷ 2 ∷ 3 ∷ []) ∷ (4 ∷ 5 ∷ []) ∷ [] }
