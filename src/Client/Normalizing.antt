-- ===== src/Client/Normalizing.antt =====
-- `Sender::normalize_path` of rstr_client/src/client.rs: the pieces of the path that it makes.
use rstr.Prelude.{◌≡◌, false, ◌==◌, All}
use rstr.Prelude.Text.{Text}

-- A piece of a path: no byte of it is a slash.
abbrev pub IsPiece : Text → Type 0
IsPiece piece = All (λ c. (c == b'/') ≡ false) piece
