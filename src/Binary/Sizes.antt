-- ===== src/Binary/Sizes.antt =====
-- The sizes of serialization.rs against the bytes that writer.rs writes.
use rstr.Prelude.{
  ℕ, ◌+◌, ◌%◌, ◌^◌, ◌≡◌, false, List, [], ◌∷◌, ◌++◌, length, arith, length-append, ◌∙◌,
}
use rstr.Prelude.Text.{Text}
use rstr.Binary.Writer.{BinaryWriter, write, write_le_u32, write_typed_array, write_items}
use rstr.Binary.Words.{appended, big_endian, write_le_u32_lem, broken-appended}
use rstr.Binary.Serialization.{SerializationError, write_string, string_size, slice_size, u32}

-- Writing a string, of whatever length, moves the position on by its `binary_size`, and the stream
-- grows by as many bytes.
pub write_string_size :
    (text : Text) (writer : BinaryWriter)
    → writer.internal.broken ≡ false
    → ((write_string text writer).1.pos ≡ (writer.pos + string_size text) % 2 ^ 64)
      × (length (write_string text writer).1.internal.bytes
          ≡ length writer.internal.bytes + string_size text)
unfolding write_string string_size write write_le_u32
write_string_size text writer fine = rw fine (
  omega arith,
  length-append (writer.internal.bytes ++ _) text
      ∙ omega (arith, length-append writer.internal.bytes _),
)

length-appended :
    (n : ℕ) (writer : BinaryWriter)
    → length (appended writer (big_endian 4 n)).internal.bytes ≡ length writer.internal.bytes + 4
unfolding appended big_endian
length-appended n writer = length-append writer.internal.bytes (big_endian 4 n)

words_size :
    (words : List ℕ) (writer : BinaryWriter)
    → writer.internal.broken ≡ false
    → length (write_items {E = SerializationError} write_le_u32 words writer).1.internal.bytes
      ≡ length writer.internal.bytes + slice_size u32 words
unfolding write_items slice_size
words_size [] writer fine = omega arith
words_size (n ∷ words) writer fine = rw (write_le_u32_lem {E = SerializationError} n writer fine) (
    words_size words (appended writer (big_endian 4 n))
      (broken-appended writer (big_endian 4 n) ∙ fine)
    ∙ omega (arith, length-appended n writer))

-- An array takes four bytes more than the `binary_size` of the slice, which leaves the count out.
pub write_typed_array_size :
    (words : List ℕ) (writer : BinaryWriter)
    → writer.internal.broken ≡ false
    → length (write_typed_array {E = SerializationError} write_le_u32 words writer).1.internal.bytes
      ≡ length writer.internal.bytes + (4 + slice_size u32 words)
unfolding write_typed_array
write_typed_array_size words writer fine =
    rw (write_le_u32_lem {E = SerializationError} (length words % 2 ^ 32) writer fine) (
      words_size words (appended writer (big_endian 4 (length words % 2 ^ 32)))
        (broken-appended writer (big_endian 4 (length words % 2 ^ 32)) ∙ fine)
      ∙ omega (arith, length-appended (length words % 2 ^ 32) writer))
