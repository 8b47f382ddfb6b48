-- ===== src/Binary/Agreement.antt =====
-- Writing with writer.rs and reading with reader.rs, for words, strings and arrays of strings.
use rstr.Prelude.{ℕ, ◌^◌, ◌<◌, ◌≡◌, false, true, List, ◌++◌, length}
use rstr.Prelude.Text.{Text, is_utf8}
use rstr.Prelude.Exec.{ok}
use rstr.Binary.Writer.{BinaryWriter}
use rstr.Binary.Serialization.{BinaryRead, BinaryWrite, string_write}
use rstr.Binary.Words.{appended, reader_at, advance}
use rstr.Binary.RoundTrip.{RoundTrips, string_read, string-RoundTrips}

-- There are bytes that the writer appends for a value, and from a stream of these bytes and others
-- the reader takes the value and leaves the others.
abbrev pub ReadsBack :
    {A : Type 0} → BinaryWrite A → BinaryRead A → A → BinaryWriter → List ℕ → ℕ → Type 0
ReadsBack w r a writer rest pos =
    (bytes : List ℕ) × (w.write_value a writer ≡ (ok tt, appended writer bytes))
    × (r.read_value (reader_at pos (bytes ++ rest)) ≡ (ok a, reader_at (advance pos bytes) rest))

module _ (writer : BinaryWriter) (rest : List ℕ) (pos : ℕ)
    (fine : writer.internal.broken ≡ false) where
  reads_back :
      {A : Type 0} (w : BinaryWrite A) (r : BinaryRead A) (a : A)
      → RoundTrips w r a
      → ReadsBack w r a writer rest pos
  reads_back w r a h = (h.bytes, h.writes writer fine, h.reads rest pos)

  -- A string that is UTF-8 and shorter than 4 GiB, written into a stream that takes it, is read back
  -- by `read_sized_str`, with the position after it.
  pub string-ReadsBack :
      (text : Text)
      → length text < 2 ^ 32
      → is_utf8 text ≡ true
      → ReadsBack string_write string_read text writer rest pos
  string-ReadsBack text h valid =
      reads_back string_write string_read text (string-RoundTrips text h valid)
