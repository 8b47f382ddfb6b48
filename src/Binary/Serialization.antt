-- ===== src/Binary/Serialization.antt =====
-- rstr_core/src/binary/serialization.rs: the errors, the two traits as records, their
-- implementations for words and strings, and the sizes.
use rstr.Prelude.{ℕ, ◌+◌, ◌*◌, ◌%◌, ◌^◌, List, length}
use rstr.Prelude.Int.{ℤ}
use rstr.Prelude.Text.{Text}
use rstr.Prelude.Exec.{Exec, ◌>>◌, pure}
use rstr.Binary.Writer.{BinaryWriter, write, write_le_u32, write_le_i32, write_le_u64, write_le_i64}
use rstr.Binary.Reader.{BinaryReader, Utf8Error, read_le_u32, read_le_i32, read_le_u64, read_le_i64}

pub data DeserializationError : Type 0 where
  invalid_magic invalid_version invalid_message_type unknown_error : DeserializationError
  string_error length_error unknown_message : DeserializationError

-- No value: `SerializationError` has no variant.
pub data SerializationError : Type 0 where

-- `From<Utf8Error>` and `From<FromUtf8Error>`
unfoldable pub of_utf8_error : Utf8Error → DeserializationError
of_utf8_error _ = string_error

pub record BinaryRead (A : Type 0) : Type 0 where
  pub read_value : Exec DeserializationError BinaryReader A

pub record BinaryWrite (A : Type 0) : Type 0 where
  pub write_value : A → Exec SerializationError BinaryWriter Unit

abbrev pub u32_read : BinaryRead ℕ
u32_read = record { read_value = read_le_u32 }

abbrev pub u64_read : BinaryRead ℕ
u64_read = record { read_value = read_le_u64 }

abbrev pub i32_read : BinaryRead ℤ
i32_read = record { read_value = read_le_i32 }

abbrev pub i64_read : BinaryRead ℤ
i64_read = record { read_value = read_le_i64 }

-- `&str` and `String`: the length of the bytes, then the bytes.
unfoldable pub write_string : Text → Exec SerializationError BinaryWriter Unit
unfolding write
write_string text = do write_le_u32 (length text % 2 ^ 32); write text; pure tt

abbrev pub string_write : BinaryWrite Text
string_write = record { write_value = write_string }

abbrev pub u32_write : BinaryWrite ℕ
u32_write = record { write_value = write_le_u32 }

abbrev pub u64_write : BinaryWrite ℕ
u64_write = record { write_value = write_le_u64 }

abbrev pub i32_write : BinaryWrite ℤ
i32_write = record { write_value = write_le_i32 }

abbrev pub i64_write : BinaryWrite ℤ
i64_write = record { write_value = write_le_i64 }

-- The types that implement `StaticBinarySize` here.
pub data Primitive : Type 0 where
  bool f32 f64 u8 u16 u32 u64 u128 i8 i16 i32 i64 i128 : Primitive

unfoldable pub static_size : Primitive → ℕ
static_size bool = 1
static_size f32 = 4
static_size f64 = 8
static_size u8 = 1
static_size u16 = 2
static_size u32 = 4
static_size u64 = 8
static_size u128 = 16
static_size i8 = 1
static_size i16 = 2
static_size i32 = 4
static_size i64 = 8
static_size i128 = 16

-- `BinarySize` of `&str` and `String`
unfoldable pub string_size : Text → ℕ
string_size text = 4 + length text

-- `BinarySize` of a slice of values of one static size
unfoldable pub slice_size {ℓ} : {A : Type ℓ} → Primitive → List A → ℕ
unfolding static_size
slice_size item values = length values * static_size item
