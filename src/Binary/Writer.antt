-- ===== src/Binary/Writer.antt =====
-- rstr_core/src/binary/writer.rs. The stream behind the writer is the list of the bytes that it has
-- taken and a flag for a stream that refuses them; words are numbers with their range as hypotheses.
use Prim.Native.Nat.{bit_and}
use rstr.Prelude.{ℕ, ◌+◌, ◌/◌, ◌%◌, ◌^◌, Bool, List, [], ◌∷◌, ◌++◌, length, if◌then◌else◌}
use rstr.Prelude.Int.{ℤ, to_unsigned}
use rstr.Prelude.Text.{Text}
use rstr.Prelude.Exec.{Exec, ok, panic, ◌>>◌}

-- What the writer writes into: `write_all` fails once it is broken.
pub record Sink : Type 0 where
  pub bytes : List ℕ
  pub broken : Bool

pub record BinaryWriter : Type 0 where
  pub internal : Sink
  pub pos : ℕ

unfoldable pub new : Sink → BinaryWriter
new internal = record { internal = internal; pos = 0 }

unfoldable pub get_pos : BinaryWriter → ℕ
get_pos writer = writer.pos

unfoldable pub flush : {E : Type 0} → Exec E BinaryWriter Unit
flush writer = if writer.internal.broken then (panic, writer) else (ok tt, writer)

-- `(number >> k & 0xFF) as u8`
unfoldable pub byte_at : ℕ → ℕ → ℕ
byte_at number k = bit_and (number / 2 ^ k) 0xFF % 2 ^ 8

module _ {E : Type 0} where
  unfoldable pub write : List ℕ → Exec E BinaryWriter ℕ
  write buffer writer = if writer.internal.broken then (panic, writer) else (
    ok (length buffer),
    record writer {
      internal = record writer.internal { bytes = writer.internal.bytes ++ buffer };
      pos = (writer.pos + length buffer) % 2 ^ 64;
    },
  )

  unfoldable pub write_unsized_string : Text → Exec E BinaryWriter Unit
  unfolding write
  write_unsized_string string = do write string; λ writer. (ok tt, writer)

  unfoldable pub write_le_u32 : ℕ → Exec E BinaryWriter Unit
  unfolding write
  write_le_u32 number = do
    write (byte_at number 24 ∷ byte_at number 16 ∷ byte_at number 8 ∷ byte_at number 0 ∷ [])
    λ writer. (ok tt, writer)

  unfoldable pub write_le_i32 : ℤ → Exec E BinaryWriter Unit
  write_le_i32 number = write_le_u32 (to_unsigned 32 number)

  unfoldable pub write_le_u64 : ℕ → Exec E BinaryWriter Unit
  unfolding write
  write_le_u64 number = do
    write (
        byte_at number 56
        ∷ byte_at number 48
        ∷ byte_at number 40
        ∷ byte_at number 32
        ∷ byte_at number 24
        ∷ byte_at number 16
        ∷ byte_at number 8
        ∷ byte_at number 0
        ∷ [])
    λ writer. (ok tt, writer)

  unfoldable pub write_le_i64 : ℤ → Exec E BinaryWriter Unit
  write_le_i64 number = write_le_u64 (to_unsigned 64 number)

  module _ {A : Type 0} (write_item : A → Exec E BinaryWriter Unit) where
    unfoldable pub write_items : List A → Exec E BinaryWriter Unit
    write_items [] = λ writer. (ok tt, writer)
    write_items (o ∷ rest) = write_item o >> write_items rest

    unfoldable pub write_typed_array : List A → Exec E BinaryWriter Unit
    unfolding write_items
    write_typed_array array = do write_le_u32 (length array % 2 ^ 32); write_items array
