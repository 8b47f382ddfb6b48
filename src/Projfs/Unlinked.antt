-- ===== src/Projfs/Unlinked.antt =====
-- The files of relative paths in `create_dir_map` (rstr_projfs/src/projfs.rs): they are not where the
-- directories of the map lead.
use rstr.Prelude.{◌≡◌, false, [], ◌∷◌, ◌==◌}
use rstr.Prelude.Text.{Text}
use rstr.Meta.Types.{Meta}
use rstr.Projfs.DirMap.{DirMap}

-- A path that does not begin with a slash.
abbrev pub IsRelative : Text → Type 0
IsRelative [] = Unit
IsRelative (c ∷ path) = (c == b'/') ≡ false
