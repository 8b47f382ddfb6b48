-- ===== src/Projfs/Total.antt =====
-- When `create_dir_map` of rstr_projfs/src/projfs.rs panics.
use rstr.Prelude.{
  ◌≡◌, refl, ◌∙◌, inl, inr, Bool, true, false, ◌||◌, Option, none, some, List, [], ◌∷◌, arith,
  Bool-cases, Option-cases, ◌==◌, ◌↔◌, subst, ℕ, not,
}
use rstr.Prelude.Text.{Text, text_eq, text_eq_refl, split, onto_first, join}
use rstr.Meta.Types.{Meta}
use rstr.Client.Paths.{all_but_last}
use rstr.Projfs.DirMap.{
  DirNode, FileInfo, DirMap, get, change, empty_node, push_dir, push_file, current_path, with_dir,
  add_dir, make_dirs, file_info, put_file, last_part, add_meta, add_all, create_dir_map,
}
use rstr.Projfs.Listed.{get-insert, get-change}

abbrev is_some : Option DirNode → Bool
is_some none = false
is_some (some node) = true

abbrev pub has : Text → DirMap → Bool
has k map = is_some (get k map)

with_dir-has :
    (k root dir_name : Text) (map : DirMap)
    → has k map ≡ true
    → has k (with_dir root dir_name map) ≡ true
unfolding with_dir
with_dir-has k root dir_name map h = ground (
  arith,
  get-insert k (current_path root dir_name) (empty_node dir_name [])
      (change root (push_dir dir_name) map),
  get-change k root (push_dir dir_name) map,
)

with_dir-has_new :
    (root dir_name : Text) (map : DirMap)
    → has (current_path root dir_name) (with_dir root dir_name map) ≡ true
unfolding with_dir
with_dir-has_new root dir_name map = ground (
  arith,
  get-insert (current_path root dir_name) (current_path root dir_name) (empty_node dir_name [])
      (change root (push_dir dir_name) map),
  text_eq_refl (current_path root dir_name),
)

put_file-has :
    (k path dir_name : Text) (file : FileInfo) (map : DirMap)
    → has k map ≡ true
    → has k (put_file path dir_name file map) ≡ true
unfolding put_file
put_file-has k path dir_name file map h = elim (Option-cases (get path map)) [
  | inl new ↦ ground (arith, new, get-insert k path (empty_node dir_name (file ∷ [])) map)
  | inr (node, old) ↦ ground (arith, old, get-change k path (push_file file) map)
]

-- The loop over the directories never unwraps a missing node.
make_dirs_total :
    (root : Text) (parts : List Text) (map : DirMap)
    → has root map ≡ true
    → has [] map ≡ true
    → (grown : DirMap) × (make_dirs root parts map ≡ some grown) × (has [] grown ≡ true)
unfolding make_dirs add_dir
make_dirs_total root [] map h top = (map, refl, top)
make_dirs_total root (dir_name ∷ parts) map h top =
    elim (Option-cases (get (current_path root dir_name) map)) [
      | inr (node, old) ↦ rw (old, make_dirs) (make_dirs_total root parts map h top)
      | inl new ↦ elim (Option-cases (get root map)) [
        | inl missing ↦ absurd (ground (arith, missing))
        | inr (node, there) ↦
            rw (new, make_dirs)
              (rw there (
                make_dirs_total (current_path root dir_name) parts (with_dir root dir_name map)
                  (with_dir-has_new root dir_name map) (with_dir-has [] root dir_name map top)))
      ]
    ]

-- Is there a slash in the path?
abbrev pub has_slash : Text → Bool
has_slash [] = false
has_slash (c ∷ path) = (c == b'/') || has_slash path

abbrev is_nil : List Text → Bool
is_nil [] = true
is_nil (p ∷ pieces) = false

onto_first-not_nil : (c : ℕ) (pieces : List Text) → is_nil (onto_first c pieces) ≡ false
unfolding onto_first
onto_first-not_nil c [] = refl
onto_first-not_nil c (piece ∷ pieces) = refl

split-not_nil : (path : Text) → is_nil (split path) ≡ false
unfolding split
split-not_nil [] = refl
split-not_nil (c ∷ path) = elim (Bool-cases (c == b'/')) [
  | inl slash ↦ rw slash
  | inr other ↦ rw other (onto_first-not_nil c (split path))
]

slash_first :
    (pieces : List Text) → is_nil pieces ≡ false → is_nil (all_but_last ([] ∷ pieces)) ≡ false
unfolding all_but_last
slash_first [] h = cc
slash_first (piece ∷ pieces) h = refl

onto_first-all_but_last :
    (c : ℕ) (pieces : List Text)
    → is_nil (all_but_last (onto_first c pieces)) ≡ is_nil (all_but_last pieces)
unfolding onto_first all_but_last
onto_first-all_but_last c [] = refl
onto_first-all_but_last c (piece ∷ []) = refl
onto_first-all_but_last c (piece ∷ next ∷ pieces) = refl

-- A path without a slash, and no other, has no directories.
directories-slash : (path : Text) → is_nil (all_but_last (split path)) ≡ not (has_slash path)
unfolding split
directories-slash [] = unfold all_but_last in refl
directories-slash (c ∷ path) = elim (Bool-cases (c == b'/')) [
  | inl slash ↦ rw slash (slash_first (split path) (split-not_nil path))
  | inr other ↦ rw other (onto_first-all_but_last c (split path) ∙ directories-slash path)
]

last_part-is_nil :
    (parts : List Text) (dir_name : Text) → last_part parts ≡ some dir_name → is_nil parts ≡ false
unfolding last_part
last_part-is_nil [] dir_name h = cc
last_part-is_nil (part ∷ parts) dir_name h = refl

last_part-none : (parts : List Text) → last_part parts ≡ none → is_nil parts ≡ true
unfolding last_part
last_part-none [] h = refl
last_part-none (part ∷ parts) h = cc

-- A round panics exactly on a path without a slash; else it leaves the root in the map.
abbrev Round : Bool → Option DirMap → Type 0
Round true result = (grown : DirMap) × (result ≡ some grown) × (has [] grown ≡ true)
Round false result = result ≡ none

add_meta-Round :
    (e : Meta) (map : DirMap) → has [] map ≡ true → Round (has_slash e.path) (add_meta e map)
unfolding add_meta
add_meta-Round e map top =
    let (grown, made, root) = make_dirs_total [] (all_but_last (split e.path)) map top top in
    elim (Option-cases (last_part (all_but_last (split e.path)))) [
      | inl none_there ↦
          let flat : has_slash e.path ≡ false = ground (
            arith,
            directories-slash e.path,
            last_part-none (all_but_last (split e.path)) none_there,
          ) in
          rw flat (ground (arith, made, none_there))
      | inr (dir_name, there) ↦
          let deep : has_slash e.path ≡ true = ground (
            arith,
            directories-slash e.path,
            last_part-is_nil (all_but_last (split e.path)) dir_name there,
          ) in
          rw deep (
            put_file (join (all_but_last (split e.path))) dir_name (file_info e) grown,
            ground (arith, made, there),
            put_file-has [] (join (all_but_last (split e.path))) dir_name (file_info e) grown root,
          )
    ]

-- Some path has no slash.
abbrev pub any_flat : List Meta → Bool
any_flat [] = false
any_flat (e ∷ entries) = not (has_slash e.path) || any_flat entries

abbrev AllMade : Bool → Option DirMap → Type 0
AllMade true result = result ≡ none
AllMade false result = (map : DirMap) × (result ≡ some map)

add_all-made :
    (entries : List Meta) (map : DirMap)
    → has [] map ≡ true
    → AllMade (any_flat entries) (add_all entries map)
unfolding add_all
add_all-made [] map top = (map, refl)
add_all-made (e ∷ entries) map top = elim (Bool-cases (has_slash e.path)) [
  | inr flat ↦
      let panics : add_meta e map ≡ none =
        subst (λ (b : Bool). Round b (add_meta e map)) flat (add_meta-Round e map top) in
      rw flat (rw (panics, add_all) refl)
  | inl deep ↦
      let (grown, made, root) =
        subst (λ (b : Bool). Round b (add_meta e map)) deep (add_meta-Round e map top) in
      rw deep (rw (made, add_all) (add_all-made entries grown root))
]

-- The map is made, unless some path has no slash at all: then, and only then, the program panics.
pub create_dir_map_panics :
    (entries : List Meta) → (create_dir_map entries ≡ none) ↔ (any_flat entries ≡ true)
unfolding create_dir_map
create_dir_map_panics entries =
    let made = add_all-made entries (([], empty_node [] []) ∷ []) (unfold get text_eq in refl) in
    elim (Bool-cases (any_flat entries)) [
      | inl flat ↦
          let panics : create_dir_map entries ≡ none =
            subst (λ (b : Bool). AllMade b (create_dir_map entries)) flat made in
          (λ _. flat, λ _. panics)
      | inr deep ↦
          let (map, fine) = subst (λ (b : Bool). AllMade b (create_dir_map entries)) deep made in
          (λ h. absurd (ground (arith, h, fine)), λ h. absurd (ground (arith, h, deep)))
    ]
