-- ===== src/Binary/Examples.antt =====
-- Runs of writer.rs and reader.rs.
use rstr.Prelude.{false, [], ◌∷◌}
use rstr.Prelude.Text.{Text}
use rstr.Binary.Writer.{BinaryWriter}

abbrev begun : BinaryWriter
begun = record { internal = record { bytes = 7 ∷ []; broken = false }; pos = 1 }

abbrev word : Text
word = 104 ∷ 105 ∷ []
