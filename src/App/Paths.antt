-- ===== src/App/Paths.antt =====
-- The local paths that rstr_client/src/main.rs takes apart with the standard library, as on Unix.
use rstr.Prelude.{◌≡◌, refl, Option, none, some, List, [], ◌∷◌, if◌then◌else◌}
use rstr.Prelude.Text.{Text, text_eq, split, is_utf8, ascii}

-- `path.file_name()` on Unix: the last component, if it is a name.
last_name : List Text → Option Text
last_name [] = none
last_name (piece ∷ pieces) =
    let rest = last_name pieces in
    elim rest [
      | some name ↦ some name
      | none ↦
          if text_eq piece [] then none else if text_eq piece (ascii ".") then none else some piece
    ]

not_parent : Option Text → Option Text
not_parent none = none
not_parent (some name) = if text_eq name (ascii "..") then none else some name

unfoldable pub path_file_name : Text → Option Text
unfolding last_name not_parent split text_eq
path_file_name path = not_parent (last_name (split path))

path_file_name_tests :
    (path_file_name (ascii "/a/b.txt") ≡ some (ascii "b.txt"))
    × (path_file_name (ascii "b/./") ≡ some (ascii "b"))
    × (path_file_name (ascii "/") ≡ none)
    × (path_file_name (ascii "a/..") ≡ none)
unfolding path_file_name
path_file_name_tests = (refl, refl, refl, refl)

-- `path.to_str()`
unfoldable pub to_str : Text → Option Text
unfolding is_utf8
to_str path = if is_utf8 path then some path else none
