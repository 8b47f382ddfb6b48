-- ===== src/Projfs/Listed.antt =====
-- What `create_dir_map` of rstr_projfs/src/projfs.rs leaves in the map under each key.
use rstr.Prelude.{
  ◌≡◌, refl, sym, ap, ◌∙◌, inl, inr, Option, none, some, List, [], ◌∷◌, ◌++◌, if◌then◌else◌, arith,
  Option-cases, append-nil, append_assoc,
}
use rstr.Prelude.Text.{Text, text_eq, text_eq_iff, split, join}
use rstr.Meta.Types.{Meta}
use rstr.Client.Paths.{all_but_last}
use rstr.Projfs.DirMap.{
  DirNode, FileInfo, DirMap, get, insert, change, empty_node, push_dir, push_file, current_path,
  with_dir, add_dir, make_dirs, file_info, put_file, last_part, add_meta, add_all, create_dir_map,
}

-- Values of a `let` that both branches share.
abbrev mapped : (DirNode → DirNode) → Option DirNode → Option DirNode
mapped f none = none
mapped f (some node) = some (f node)

pub get-insert :
    (k path : Text) (node : DirNode) (map : DirMap)
    → get k (insert path node map) ≡ (if text_eq path k then some node else get k map)
unfolding get insert
get-insert k path node [] = refl
get-insert k path node ((key, old) ∷ map) =
    ground (
      arith,
      text_eq_iff key path,
      text_eq_iff key k,
      text_eq_iff path k,
      get-insert k path node map,
    )

pub get-change :
    (k path : Text) (f : DirNode → DirNode) (map : DirMap)
    → get k (change path f map) ≡ (if text_eq path k then mapped f (get k map) else get k map)
unfolding get change
get-change k path f [] = ground (arith, text_eq_iff path k)
get-change k path f ((key, node) ∷ map) =
    ground
      (arith, text_eq_iff key path, text_eq_iff key k, text_eq_iff path k, get-change k path f map)

abbrev files_of : Option DirNode → List FileInfo
files_of none = []
files_of (some node) = node.files

-- The files of the node under a key; none if it has no node.
abbrev pub files_at : Text → DirMap → List FileInfo
files_at k map = files_of (get k map)

with_dir-files_at :
    (k root dir_name : Text) (map : DirMap)
    → get (current_path root dir_name) map ≡ none
    → files_at k (with_dir root dir_name map) ≡ files_at k map
unfolding with_dir
with_dir-files_at k root dir_name map new = ground (
  arith,
  get-insert k (current_path root dir_name) (empty_node dir_name [])
      (change root (push_dir dir_name) map),
  get-change k root (push_dir dir_name) map,
  text_eq_iff (current_path root dir_name) k,
)

make_dirs-files_at :
    (k root : Text) (parts : List Text) (map grown : DirMap)
    → make_dirs root parts map ≡ some grown
    → files_at k grown ≡ files_at k map
unfolding make_dirs add_dir
make_dirs-files_at k root [] map grown h = ground arith
make_dirs-files_at k root (dir_name ∷ parts) map grown h =
    elim (Option-cases (get (current_path root dir_name) map)) [
      | inr (node, old) ↦ make_dirs-files_at k root parts map grown (ground (arith, old))
      | inl new ↦ elim (Option-cases (get root map)) [
        | inl missing ↦ absurd (ground (arith, new, missing))
        | inr (node, there) ↦
            make_dirs-files_at k (current_path root dir_name) parts (with_dir root dir_name map)
              grown (ground (arith, new, there))
            ∙ with_dir-files_at k root dir_name map new
      ]
    ]

-- The file, if its directory has this key.
abbrev pub if_in : Text → Text → FileInfo → List FileInfo
if_in k path file = if text_eq path k then file ∷ [] else []

put_file-files_at :
    (k path dir_name : Text) (file : FileInfo) (map : DirMap)
    → files_at k (put_file path dir_name file map) ≡ files_at k map ++ if_in k path file
unfolding put_file
put_file-files_at k path dir_name file map = elim (Option-cases (get path map)) [
  | inl new ↦ ground (
    arith,
    new,
    get-insert k path (empty_node dir_name (file ∷ [])) map,
    text_eq_iff path k,
    append-nil (files_at k map),
  )
  | inr (node, old) ↦ ground (
    arith,
    old,
    get-change k path (push_file file) map,
    text_eq_iff path k,
    append-nil (files_at k map),
  )
]

-- The directory of a file, as the map's key has it: the path without its last piece.
abbrev pub directory_key : Meta → Text
directory_key e = join (all_but_last (split e.path))

add_meta-files_at :
    (k : Text) (e : Meta) (map grown : DirMap)
    → add_meta e map ≡ some grown
    → files_at k grown ≡ files_at k map ++ if_in k (directory_key e) (file_info e)
unfolding add_meta
add_meta-files_at k e map grown h =
    elim (Option-cases (make_dirs [] (all_but_last (split e.path)) map)) [
      | inl lost ↦ absurd (ground (arith, lost))
      | inr (made, fine) ↦ elim (Option-cases (last_part (all_but_last (split e.path)))) [
        | inl top ↦ absurd (ground (arith, fine, top))
        | inr (dir_name, there) ↦
            let same : put_file (directory_key e) dir_name (file_info e) made ≡ grown =
              ground (arith, fine, there) in
            ap (files_at k) (sym same)
            ∙ put_file-files_at k (directory_key e) dir_name (file_info e) made
            ∙ ap (λ l. l ++ if_in k (directory_key e) (file_info e))
                (make_dirs-files_at k [] (all_but_last (split e.path)) map made fine)
      ]
    ]

-- The files that lie in the directory, in the order of the metadata.
abbrev pub files_in : Text → List Meta → List FileInfo
files_in k [] = []
files_in k (e ∷ entries) = if_in k (directory_key e) (file_info e) ++ files_in k entries

add_all-files_at :
    (k : Text) (entries : List Meta) (map grown : DirMap)
    → add_all entries map ≡ some grown
    → files_at k grown ≡ files_at k map ++ files_in k entries
unfolding add_all
add_all-files_at k [] map grown h = ground (arith, append-nil (files_at k map))
add_all-files_at k (e ∷ entries) map grown h = elim (Option-cases (add_meta e map)) [
  | inl lost ↦ absurd (ground (arith, lost))
  | inr (made, fine) ↦
      add_all-files_at k entries made grown (ground (arith, fine))
      ∙ ap (λ l. l ++ files_in k entries) (add_meta-files_at k e map made fine)
      ∙ append_assoc (files_at k map) (if_in k (directory_key e) (file_info e)) (files_in k entries)
]

root-files_at : (k : Text) → files_at k (([], empty_node [] []) ∷ []) ≡ []
unfolding get
root-files_at k = ground (arith, text_eq_iff [] k)

-- Where the map can be made, the node under a key has the files of the metadata whose directory is
-- that key, all of them and in their order, and no other.
pub create_dir_map-files_at :
    (k : Text) (entries : List Meta) (map : DirMap)
    → create_dir_map entries ≡ some map
    → files_at k map ≡ files_in k entries
unfolding create_dir_map
create_dir_map-files_at k entries map h =
    add_all-files_at k entries (([], empty_node [] []) ∷ []) map h
    ∙ ap (λ l. l ++ files_in k entries) (root-files_at k)
