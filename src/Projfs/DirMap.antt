-- ===== src/Projfs/DirMap.antt =====
-- `create_dir_map` of rstr_projfs/src/projfs.rs. The map is an association list, and `none` is a panic.
use rstr.Prelude.{ℕ, Option, none, some, List, [], ◌∷◌, ◌++◌, length, ◌==◌, if◌then◌else◌}
use rstr.Prelude.Int.{to_unsigned}
use rstr.Prelude.Text.{Text, text_eq, split, join, ascii}
use rstr.Meta.Types.{Meta}
use rstr.Client.Paths.{last_piece, all_but_last}

-- What the program sets of the types of the crate windows-projfs; the rest has its default value.
pub record DirectoryInfo : Type 0 where
  pub directory_name : Text

pub record FileInfo : Type 0 where
  pub file_name : Text
  pub file_size : ℕ
  pub file_attributes : ℕ
  pub creation_time : ℕ
  pub last_access_time : ℕ
  pub last_write_time : ℕ

pub record DirNode : Type 0 where
  pub info : DirectoryInfo
  pub files : List FileInfo
  pub dirs : List DirectoryInfo

abbrev pub DirMap : Type 0
DirMap = List (Text × DirNode)

unfoldable pub get : Text → DirMap → Option DirNode
get path [] = none
get path ((key, node) ∷ map) = if text_eq key path then some node else get path map

-- `map.insert(path, node)`
unfoldable pub insert : Text → DirNode → DirMap → DirMap
insert path node [] = (path, node) ∷ []
insert path node ((key, old) ∷ map) =
    if text_eq key path then (key, node) ∷ map else (key, old) ∷ insert path node map

-- The write through `map.get_mut(&path)`.
unfoldable pub change : Text → (DirNode → DirNode) → DirMap → DirMap
change path f [] = []
change path f ((key, node) ∷ map) =
    if text_eq key path then (key, f node) ∷ map else (key, node) ∷ change path f map

abbrev pub empty_node : Text → List FileInfo → DirNode
empty_node directory_name files = record {
  info = record { directory_name = directory_name };
  files = files;
  dirs = [];
}

abbrev pub push_dir : Text → DirNode → DirNode
push_dir directory_name node = record node {
  dirs = node.dirs ++ record { directory_name = directory_name } ∷ [];
}

abbrev pub push_file : FileInfo → DirNode → DirNode
push_file file node = record node { files = node.files ++ file ∷ [] }

unfoldable pub current_path : Text → Text → Text
current_path root_path dir_name =
    root_path ++ ((if length root_path == 1 then [] else ascii "/") ++ dir_name)

unfoldable pub with_dir : Text → Text → DirMap → DirMap
unfolding insert change current_path
with_dir root_path dir_name map =
    insert (current_path root_path dir_name) (empty_node dir_name [])
      (change root_path (push_dir dir_name) map)

-- A directory that is not in the map yet: its parent's node is unwrapped.
unfoldable pub add_dir : Text → Text → DirMap → Option DirMap
unfolding get with_dir
add_dir root_path dir_name map = elim (get root_path map) [
  | none ↦ none
  | some root ↦ some (with_dir root_path dir_name map)
]

-- The loop over the directories of a path; one that is there is skipped by `continue`.
unfoldable pub make_dirs : Text → List Text → DirMap → Option DirMap
unfolding add_dir
make_dirs root_path [] map = some map
make_dirs root_path (dir_name ∷ parts) map = elim (get (current_path root_path dir_name) map) [
  | some node ↦ make_dirs root_path parts map
  | none ↦ elim (add_dir root_path dir_name map) [
    | none ↦ none
    | some grown ↦ make_dirs (current_path root_path dir_name) parts grown
  ]
]

abbrev pub file_info : Meta → FileInfo
file_info e = record {
  file_name = last_piece (split e.path);
  file_size = e.size;
  file_attributes = 0;
  creation_time = to_unsigned 64 e.file_modified;
  last_access_time = to_unsigned 64 e.file_modified;
  last_write_time = to_unsigned 64 e.file_modified;
}

-- The `match` at the end of a round.
unfoldable pub put_file : Text → Text → FileInfo → DirMap → DirMap
unfolding get insert change
put_file path dir_name file map = elim (get path map) [
  | some entry ↦ change path (push_file file) map
  | none ↦ insert path (empty_node dir_name (file ∷ [])) map
]

-- `parts.last().unwrap()`
unfoldable pub last_part : List Text → Option Text
unfolding last_piece
last_part [] = none
last_part (part ∷ parts) = some (last_piece (part ∷ parts))

filed : List Text → FileInfo → DirMap → Option DirMap
unfolding last_part put_file join
filed parts file map = elim (last_part parts) [
  | none ↦ none
  | some dir_name ↦ some (put_file (join parts) dir_name file map)
]

-- A round of the loop over the metadata.
unfoldable pub add_meta : Meta → DirMap → Option DirMap
unfolding make_dirs filed split last_piece all_but_last
add_meta e map = elim (make_dirs [] (all_but_last (split e.path)) map) [
  | none ↦ none
  | some grown ↦ filed (all_but_last (split e.path)) (file_info e) grown
]

unfoldable pub add_all : List Meta → DirMap → Option DirMap
unfolding add_meta
add_all [] map = some map
add_all (e ∷ entries) map = elim (add_meta e map) [
  | none ↦ none
  | some grown ↦ add_all entries grown
]

unfoldable pub create_dir_map : List Meta → Option DirMap
unfolding add_all
create_dir_map meta_entries = add_all meta_entries (([], empty_node [] []) ∷ [])
