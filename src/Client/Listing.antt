-- ===== src/Client/Listing.antt =====
-- `convert_index` of the receiver and of the sender in rstr_client/src/client.rs: the directories
-- and the files that the program shows.
use rstr.Prelude.{
  ℕ, ◌+◌, ◌-◌, ◌%◌, ◌^◌, Bool, false, ◌||◌, Option, none, some, List, [], ◌∷◌, ◌++◌, map, length,
  ltb, ◌==◌, if◌then◌else◌,
}
use rstr.Prelude.Text.{Text, text_eq, is_utf8}
use rstr.Meta.Types.{MetaIndexEntry, MetaIndex}
use rstr.Client.Types.{
  Platform, Directory, ReceiverFile, SenderFile, ReceiverFileStatus, not_downloaded, downloading,
  downloaded,
}
use rstr.Client.Paths.{file_name, directory_path}

-- `HashSet<String>`: its members, and `insert`.
unfoldable pub has_dir : List Text → Text → Bool
has_dir [] d = false
has_dir (x ∷ dirs) d = text_eq x d || has_dir dirs d

unfoldable pub insert_dir : List Text → Text → List Text
unfolding has_dir
insert_dir dirs d = if has_dir dirs d then dirs else dirs ++ d ∷ []

-- The status of a file, by `chunks_total - received_chunks.len()` in a `usize`.
unfoldable pub status_of : ℕ → ℕ → ReceiverFileStatus
status_of chunks_total received =
    let chunks_left : ℕ = (chunks_total + 2 ^ 64 - received) % 2 ^ 64 in
    if chunks_left == chunks_total
    then not_downloaded
    else if ltb 0 chunks_left
    then downloading
    else downloaded

module _ (P : Platform) where
  -- `dirs.sort_by(…)`, a stable sort.
  insert_sorted : Text → List Text → List Text
  insert_sorted d [] = d ∷ []
  insert_sorted d (x ∷ dirs) = if P.lexical_le d x then d ∷ x ∷ dirs else x ∷ insert_sorted d dirs

  unfoldable pub sort_dirs : List Text → List Text
  unfolding insert_sorted
  sort_dirs [] = []
  sort_dirs (d ∷ dirs) = insert_sorted d (sort_dirs dirs)

  abbrev pub directory : Text → Directory
  directory d = record { display_name = b'/' ∷ d; actual_name = d }

  -- `to_str().unwrap()` panics on a path that is not Unicode: `none`.
  unfoldable pub receiver_file : MetaIndexEntry → Option ReceiverFile
  unfolding file_name directory_path status_of
  receiver_file e =
      if is_utf8 e.local_path
      then some (record {
        name = file_name e.meta.path;
        dir = directory_path e.meta.path;
        status = status_of (length e.meta.chunks) (length e.received_chunks);
        remote_path = e.meta.path;
        local_path = e.local_path;
        formatted_size = P.format_size e.meta.size;
      })
      else none

  unfoldable pub sender_file : MetaIndexEntry → Option SenderFile
  unfolding file_name directory_path
  sender_file e =
      if is_utf8 e.local_path
      then some (record {
        name = file_name e.meta.path;
        dir = directory_path e.meta.path;
        remote_path = e.meta.path;
        local_path = e.local_path;
        formatted_size = P.format_size e.meta.size;
      })
      else none

  -- The loop over the entries, which collects the files and their directories.
  unfoldable pub list_files :
      {A : Type 0} → (MetaIndexEntry → Option A) → List MetaIndexEntry → Option (List A)
  list_files to_file [] = some []
  list_files to_file (e ∷ entries) =
      let rest = list_files to_file entries in
      elim (to_file e) [
        | none ↦ none
        | some file ↦ elim rest [ none ↦ none | some files ↦ some (file ∷ files) ]
      ]

  unfoldable pub list_dirs : List Text → List MetaIndexEntry → List Text
  unfolding insert_dir directory_path
  list_dirs dirs [] = dirs
  list_dirs dirs (e ∷ entries) = list_dirs (insert_dir dirs (directory_path e.meta.path)) entries

  -- `none` is a panic.
  unfoldable pub listing :
      {A : Type 0} → (MetaIndexEntry → Option A) → MetaIndex → Option (List Directory × List A)
  unfolding list_files list_dirs sort_dirs
  listing to_file index = elim (list_files to_file index.entries) [
    | none ↦ none
    | some files ↦ some (map directory (sort_dirs (list_dirs ([] ∷ []) index.entries)), files)
  ]
