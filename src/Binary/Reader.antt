-- ===== src/Binary/Reader.antt =====
-- rstr_core/src/binary/reader.rs. The stream behind the reader is the list of the bytes to come;
-- `read_exact` fails, and its `unwrap` panics, where there are too few.
use Prim.Native.Nat.{bit_or}
use rstr.Prelude.{
  ℕ, zero, suc, ◌+◌, ◌*◌, ◌%◌, ◌^◌, List, [], ◌∷◌, ◌++◌, length, leb, take, drop, if◌then◌else◌,
}
use rstr.Prelude.Int.{ℤ, to_signed}
use rstr.Prelude.Text.{Text, is_utf8}
use rstr.Prelude.Exec.{Exec, Outcome, ok, err, panic, pure, lift, ◌>>=◌}

pub record BinaryReader : Type 0 where
  pub internal : List ℕ
  pub pos : ℕ

unfoldable pub new : List ℕ → BinaryReader
new internal = record { internal = internal; pos = 0 }

-- `seek` moves the position and leaves the stream where it is.
unfoldable pub seek : BinaryReader → ℕ → BinaryReader
seek reader distance = record reader { pos = (reader.pos + distance) % 2 ^ 64 }

-- `FromUtf8Error`
pub data Utf8Error : Type 0 where
  not_utf8 : Utf8Error

-- `String::from_utf8`
unfoldable pub from_utf8 : List ℕ → Outcome Utf8Error Text
from_utf8 bytes = if is_utf8 bytes then ok bytes else err not_utf8

-- `(byte as uW) << k` for a byte, which loses no bit.
abbrev pub shifted : ℕ → ℕ → ℕ
shifted byte k = byte * 2 ^ k

abbrev pub word_of_4 : List ℕ → ℕ
word_of_4 (a ∷ b ∷ c ∷ d ∷ _) =
    bit_or (bit_or (bit_or (shifted a 24) (shifted b 16)) (shifted c 8)) d
word_of_4 _ = 0

abbrev pub word_of_8 : List ℕ → ℕ
word_of_8 (a ∷ b ∷ c ∷ d ∷ e ∷ f ∷ g ∷ h ∷ _) =
    bit_or
      (bit_or
        (bit_or
          (bit_or
            (bit_or (bit_or (bit_or (shifted a 56) (shifted b 48)) (shifted c 40)) (shifted d 32))
            (shifted e 24))
          (shifted f 16))
        (shifted g 8))
      h
word_of_8 _ = 0

module _ {E : Type 0} where
  unfoldable pub read : ℕ → Exec E BinaryReader (List ℕ)
  read count reader =
      if leb count (length reader.internal)
      then (
        ok (take count reader.internal),
        record { internal = drop count reader.internal; pos = (reader.pos + count) % 2 ^ 64 },
      )
      else (panic, reader)

  unfoldable pub read_le_u32 : Exec E BinaryReader ℕ
  unfolding read
  read_le_u32 = do bytes ← read 4; pure (word_of_4 bytes)

  unfoldable pub read_le_i32 : Exec E BinaryReader ℤ
  read_le_i32 = do word ← read_le_u32; pure (to_signed 32 word)

  unfoldable pub read_le_u64 : Exec E BinaryReader ℕ
  unfolding read
  read_le_u64 = do bytes ← read 8; pure (word_of_8 bytes)

  unfoldable pub read_le_i64 : Exec E BinaryReader ℤ
  read_le_i64 = do word ← read_le_u64; pure (to_signed 64 word)

unfoldable pub read_sized_str : Exec Utf8Error BinaryReader Text
unfolding read from_utf8
read_sized_str = do size ← read_le_u32; bytes ← read size; lift (from_utf8 bytes)

unfoldable pub read_unsized_str : ℕ → Exec Utf8Error BinaryReader Text
unfolding read from_utf8
read_unsized_str len = do bytes ← read len; lift (from_utf8 bytes)

module _ {E A : Type 0} (read_item : Exec E BinaryReader A) where
  -- The rounds of `for _ in 0..count`, with the vector as it grows at its end.
  unfoldable pub read_items : ℕ → List A → Exec E BinaryReader (List A)
  read_items zero vector = pure vector
  read_items (suc count) vector = do item ← read_item; read_items count (vector ++ item ∷ [])

  unfoldable pub read_typed_array : Exec E BinaryReader (List A)
  unfolding read_items
  read_typed_array = do count ← read_le_u32; read_items count []
