-- ===== src/Projfs/Examples.antt =====
-- `create_dir_map` of rstr_projfs/src/projfs.rs on concrete metadata.
use rstr.Prelude.{◌≡◌, refl, ◌↔◌, true, none, some, Option, List, [], ◌∷◌, map}
use rstr.Prelude.Int.{pos}
use rstr.Prelude.Text.{Text, ascii, split, join, text_eq}
use rstr.Meta.Types.{Meta}
use rstr.Client.Paths.{last_piece, all_but_last}
use rstr.Projfs.DirMap.{DirNode, DirMap, get, create_dir_map}
use rstr.Projfs.Listed.{files_at, files_in, create_dir_map-files_at}
use rstr.Projfs.Total.{any_flat, create_dir_map_panics}

abbrev meta_of : Text → Meta
meta_of path = record {
  path = path;
  hash = 0;
  size = 5;
  file_modified = pos 7;
  meta_modified = pos 8;
  chunks = [];
}

abbrev siblings : List Meta
siblings = meta_of (ascii "a/x/f") ∷ meta_of (ascii "a/y/g") ∷ []

program : Unit {0}
unfolding create_dir_map get split join all_but_last last_piece text_eq
program = tt

abbrev made : Option DirMap → DirMap
made none = []
made (some map) = map

siblings-made : create_dir_map siblings ≡ some (made (create_dir_map siblings))
unfolding program
siblings-made = refl

abbrev dirs_of : Option DirNode → List Text
dirs_of none = []
dirs_of (some node) = map (λ d. d.directory_name) node.dirs

-- The directory `y` of `a` is taken for one of the root, since the skipped `a` is not entered.
siblings_misplaced :
    (dirs_of (get [] (made (create_dir_map siblings))) ≡ ascii "a" ∷ ascii "y" ∷ [])
    × (dirs_of (get (ascii "/a") (made (create_dir_map siblings))) ≡ ascii "x" ∷ [])
unfolding program
siblings_misplaced = (refl, refl)

create_dir_map-files_at_example :
    files_at (ascii "a/y") (made (create_dir_map siblings)) ≡ files_in (ascii "a/y") siblings
create_dir_map-files_at_example =
    create_dir_map-files_at (ascii "a/y") siblings (made (create_dir_map siblings)) siblings-made

create_dir_map_panics_example :
    (create_dir_map (meta_of (ascii "f") ∷ siblings) ≡ none)
    ↔ (any_flat (meta_of (ascii "f") ∷ siblings) ≡ true)
create_dir_map_panics_example = create_dir_map_panics (meta_of (ascii "f") ∷ siblings)
