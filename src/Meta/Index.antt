-- ===== src/Meta/Index.antt =====
-- The operations of `MetaIndex` in rstr_core/src/meta.rs that keep everything in memory.
use rstr.Prelude.{
  ℕ, suc, Bool, false, ◌||◌, Option, none, some, List, [], ◌∷◌, ◌++◌, length, set, leb, ◌==◌,
  if◌then◌else◌,
}
use rstr.Prelude.Int.{ℤ, ltb_ℤ, i64_min}
use rstr.Prelude.Text.{Text, text_eq}
use rstr.Prelude.Exec.{Exec, ok, err}
use rstr.Meta.Types.{Meta, MetaIndexEntry, MetaIndex, MetaIndexError, MarkReceivedError}

-- `HashSet::contains` and `HashSet::insert`
unfoldable pub contains : List ℕ → ℕ → Bool
contains [] i = false
contains (j ∷ members) i = (j == i) || contains members i

unfoldable pub insert : List ℕ → ℕ → List ℕ
unfolding contains
insert members i = if contains members i then members else members ++ i ∷ []

-- `entries.iter().max_by_key(|e| e.meta.meta_modified)`: the last of the greatest.
unfoldable pub max_modified : List MetaIndexEntry → Option MetaIndexEntry
max_modified [] = none
max_modified (e ∷ entries) = elim (max_modified entries) [
  | none ↦ some e
  | some best ↦ if ltb_ℤ best.meta.meta_modified e.meta.meta_modified then some e else some best
]

unfoldable pub get_last_updated : MetaIndex → ℤ
unfolding max_modified
get_last_updated index = elim (max_modified index.entries) [
  | none ↦ i64_min
  | some s ↦ s.meta.meta_modified
]

unfoldable pub modified_after : ℤ → List MetaIndexEntry → List MetaIndexEntry
modified_after after [] = []
modified_after after (e ∷ entries) =
    let rest = modified_after after entries in
    if ltb_ℤ after e.meta.meta_modified then e ∷ rest else rest

unfoldable pub get_modified_after : MetaIndex → ℤ → List MetaIndexEntry
unfolding modified_after
get_modified_after index after = modified_after after index.entries

unfoldable pub find_path : Text → List MetaIndexEntry → Option MetaIndexEntry
find_path remote_path [] = none
find_path remote_path (e ∷ entries) =
    if text_eq e.meta.path remote_path then some e else find_path remote_path entries

unfoldable pub find_entry : MetaIndex → Text → Option MetaIndexEntry
unfolding find_path
find_entry index remote_path = find_path remote_path index.entries

-- The write through `find_entry_mut`: the first entry of the path is changed in place.
unfoldable pub change_path :
    Text → (MetaIndexEntry → MetaIndexEntry) → List MetaIndexEntry → List MetaIndexEntry
change_path remote_path f [] = []
change_path remote_path f (e ∷ entries) =
    if text_eq e.meta.path remote_path then f e ∷ entries else e ∷ change_path remote_path f entries

unfoldable pub find_entry_mut : MetaIndex → Text → (MetaIndexEntry → MetaIndexEntry) → MetaIndex
unfolding change_path
find_entry_mut index remote_path f = record { entries = change_path remote_path f index.entries }

-- `entry.received_chunks.insert(chunk_index)`
abbrev pub receive : ℕ → MetaIndexEntry → MetaIndexEntry
receive chunk_index entry = record entry {
  received_chunks = insert entry.received_chunks chunk_index;
}

abbrev pub relocate : Text → MetaIndexEntry → MetaIndexEntry
relocate local_path entry = record entry { local_path = local_path; received_chunks = [] }

abbrev pub rename : Text → MetaIndexEntry → MetaIndexEntry
rename new_remote_path entry = record entry { meta = record entry.meta { path = new_remote_path } }

unfoldable pub mark_received : Text → ℕ → Exec MarkReceivedError MetaIndex Unit
unfolding find_entry find_entry_mut insert
mark_received remote_path chunk_index index = elim (find_entry index remote_path) [
  | none ↦ (err MarkReceivedError.file_not_found, index)
  | some entry ↦
      if leb (length entry.meta.chunks) chunk_index
      then (err MarkReceivedError.chunk_not_found, index)
      else (ok tt, find_entry_mut index remote_path (receive chunk_index))
]

unfoldable pub change_local : Text → Text → Exec MetaIndexError MetaIndex Unit
unfolding find_entry find_entry_mut
change_local remote_path local_path index = elim (find_entry index remote_path) [
  | none ↦ (err MetaIndexError.file_not_found, index)
  | some entry ↦ (ok tt, find_entry_mut index remote_path (relocate local_path))
]

unfoldable pub change_remote : Text → Text → Exec MetaIndexError MetaIndex Unit
unfolding find_entry find_entry_mut
change_remote old_remote_path new_remote_path index = elim (find_entry index old_remote_path) [
  | none ↦ (err MetaIndexError.file_not_found, index)
  | some entry ↦ (ok tt, find_entry_mut index old_remote_path (rename new_remote_path))
]

unfoldable pub remove_path : Text → List MetaIndexEntry → List MetaIndexEntry
remove_path remote_path [] = []
remove_path remote_path (e ∷ entries) =
    if text_eq e.meta.path remote_path then entries else e ∷ remove_path remote_path entries

unfoldable pub remove : MetaIndex → Text → MetaIndex
unfolding remove_path
remove index remote_path = record { entries = remove_path remote_path index.entries }

-- The search loop of `add_entry`: the first position of the path.
unfoldable pub position : Text → List MetaIndexEntry → Option ℕ
position remote_path [] = none
position remote_path (e ∷ entries) =
    let later = position remote_path entries in
    if text_eq e.meta.path remote_path
    then some 0
    else elim later [ none ↦ none | some i ↦ some (suc i) ]

unfoldable pub add_entry : MetaIndex → MetaIndexEntry → MetaIndex
unfolding position
add_entry index entry = elim (position entry.meta.path index.entries) [
  | some i ↦ record { entries = set index.entries i entry }
  | none ↦ record { entries = index.entries ++ entry ∷ [] }
]

-- The entry of a file that only its metadata is known of.
abbrev pub fresh_entry : Meta → MetaIndexEntry
fresh_entry meta = record { local_path = []; received_chunks = []; meta = meta }

unfoldable pub add_for_meta : MetaIndex → Meta → MetaIndex
unfolding add_entry
add_for_meta index meta = add_entry index (fresh_entry meta)
