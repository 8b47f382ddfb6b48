-- ===== src/Client/Paths.antt =====
-- Remote paths in rstr_client/src/client.rs: `Sender::normalize_path`, and the parts of a path that
-- the listings show.
use rstr.Prelude.{◌≡◌, refl, List, [], ◌∷◌, if◌then◌else◌}
use rstr.Prelude.Text.{Text, ascii, split, join, is_blank}

-- `tokens.last()`; a split has at least one piece.
unfoldable pub last_piece : List Text → Text
last_piece [] = []
last_piece (piece ∷ []) = piece
last_piece (piece ∷ next ∷ rest) = last_piece (next ∷ rest)

-- `tokens.truncate(tokens.len() - 1)`
unfoldable pub all_but_last : List Text → List Text
all_but_last [] = []
all_but_last (piece ∷ []) = []
all_but_last (piece ∷ next ∷ rest) = piece ∷ all_but_last (next ∷ rest)

-- `remote_path.split("/").last().unwrap()`
unfoldable pub file_name : Text → Text
unfolding last_piece split
file_name remote_path = last_piece (split remote_path)

directory_of : List Text → Text
directory_of [] = []
directory_of (piece ∷ []) = []
directory_of (piece ∷ next ∷ rest) = join (all_but_last (piece ∷ next ∷ rest))

unfoldable pub directory_path : Text → Text
unfolding directory_of split join all_but_last
directory_path remote_path = directory_of (split remote_path)

unfoldable pub not_blank : List Text → List Text
not_blank [] = []
not_blank (p ∷ pieces) = if is_blank p then not_blank pieces else p ∷ not_blank pieces

unfoldable pub normalize_path : Text → Text
unfolding not_blank split join
normalize_path path = join (not_blank (split path))

normalize_test : normalize_path (ascii "/a//b /  /c.txt/") ≡ ascii "a/b /c.txt"
unfolding normalize_path is_blank
normalize_test = refl
