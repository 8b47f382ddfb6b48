-- ===== src/Binary/Words.antt =====
-- The words that writer.rs and reader.rs move: their bytes stand most significant first.
use rstr.Prelude.{
  ℕ, zero, suc, ◌+◌, ◌*◌, ◌/◌, ◌%◌, ◌^◌, ◌<◌, ◌≡◌, refl, ◌∙◌, false, List, [], ◌∷◌, ◌++◌, length,
  length-append, append_assoc, arith, take-append_length, drop-append_length,
}
use Prim.Native.Nat.{bit_or}
use rstr.Prelude.Bits.{bit_or_disjoint, bit_and_byte}
use rstr.Prelude.Exec.{ok}
use rstr.Binary.Writer.{BinaryWriter, byte_at, write, write_le_u32, write_le_u64}
use rstr.Binary.Reader.{BinaryReader, read, read_le_u32, read_le_u64, word_of_4, word_of_8}

-- The `count` low bytes of a number, most significant first.
unfoldable pub big_endian : ℕ → ℕ → List ℕ
big_endian zero n = []
big_endian (suc count) n = (n / 256 ^ count % 256) ∷ big_endian count n

-- The writer after it has taken more bytes.
unfoldable pub appended : BinaryWriter → List ℕ → BinaryWriter
appended writer bytes = record writer {
  internal = record writer.internal { bytes = writer.internal.bytes ++ bytes };
  pos = (writer.pos + length bytes) % 2 ^ 64;
}

-- A reader at a position, with the bytes to come.
abbrev pub reader_at : ℕ → List ℕ → BinaryReader
reader_at pos bytes = record { internal = bytes; pos = pos }

abbrev pub advance : ℕ → List ℕ → ℕ
advance pos bytes = (pos + length bytes) % 2 ^ 64

pub appended-append :
    (writer : BinaryWriter) (xs ys : List ℕ)
    → appended (appended writer xs) ys ≡ appended writer (xs ++ ys)
unfolding appended
appended-append writer xs ys =
    ground (arith, length-append xs ys, append_assoc writer.internal.bytes xs ys)

pub advance-append :
    (pos : ℕ) (xs ys : List ℕ) → advance (advance pos xs) ys ≡ advance pos (xs ++ ys)
advance-append pos xs ys = omega (arith, length-append xs ys)

byte_at-big_endian : (n k : ℕ) → byte_at n k ≡ n / 2 ^ k % 256
unfolding byte_at
byte_at-big_endian n k = omega (arith, bit_and_byte (n / 2 ^ k))

module _ {E : Type 0} where
  pub write_lem :
      (bytes : List ℕ) (writer : BinaryWriter)
      → writer.internal.broken ≡ false
      → write {E = E} bytes writer ≡ (ok (length bytes), appended writer bytes)
  unfolding write appended
  write_lem bytes writer h = rw h

  pub write_le_u32_lem :
      (n : ℕ) (writer : BinaryWriter)
      → writer.internal.broken ≡ false
      → write_le_u32 {E = E} n writer ≡ (ok tt, appended writer (big_endian 4 n))
  unfolding write_le_u32 write appended big_endian
  write_le_u32_lem n writer h =
      rw
        (
          h,
          byte_at-big_endian n 24,
          byte_at-big_endian n 16,
          byte_at-big_endian n 8,
          byte_at-big_endian n 0,
        )
        refl

  pub write_le_u64_lem :
      (n : ℕ) (writer : BinaryWriter)
      → writer.internal.broken ≡ false
      → write_le_u64 {E = E} n writer ≡ (ok tt, appended writer (big_endian 8 n))
  unfolding write_le_u64 write appended big_endian
  write_le_u64_lem n writer h = rw (
    h,
    byte_at-big_endian n 56,
    byte_at-big_endian n 48,
    byte_at-big_endian n 40,
    byte_at-big_endian n 32,
    byte_at-big_endian n 24,
    byte_at-big_endian n 16,
    byte_at-big_endian n 8,
    byte_at-big_endian n 0,
  )

  -- `read_exact` of as many bytes as stand first.
  pub read_lem :
      (bytes rest : List ℕ) (pos : ℕ)
      → read {E = E} (length bytes) (reader_at pos (bytes ++ rest))
        ≡ (ok bytes, reader_at (advance pos bytes) rest)
  unfolding read
  read_lem bytes rest pos = ground (
    arith,
    length-append bytes rest,
    take-append_length bytes rest,
    drop-append_length bytes rest,
  )

or_aligned : (k q x r : ℕ) → x ≡ q * 2 ^ k → r < 2 ^ k → bit_or x r ≡ x + r
or_aligned k q x r e h = rw (e, bit_or_disjoint k q r h)

-- Bytes joined by `<<` and `|` are the number with those digits.
word_4 :
    (a b c d : ℕ)
    → b < 256
    → c < 256
    → d < 256
    → bit_or (bit_or (bit_or (a * 2 ^ 24) (b * 2 ^ 16)) (c * 2 ^ 8)) d
      ≡ a * 2 ^ 24 + b * 2 ^ 16 + c * 2 ^ 8 + d
word_4 a b c d hb hc hd = rw (or_aligned 24 a (a * 2 ^ 24) (b * 2 ^ 16) refl (omega arith)) (
    rw
      (or_aligned 16 (a * 256 + b) (a * 2 ^ 24 + b * 2 ^ 16) (c * 2 ^ 8) (omega arith)
        (omega arith))
      (or_aligned 8 (a * 65536 + b * 256 + c) (a * 2 ^ 24 + b * 2 ^ 16 + c * 2 ^ 8) d (omega arith)
        (omega arith)))

high_4 :
    (a b c d : ℕ)
    → b < 256
    → c < 256
    → d < 256
    → bit_or (bit_or (bit_or (a * 2 ^ 56) (b * 2 ^ 48)) (c * 2 ^ 40)) (d * 2 ^ 32)
      ≡ (a * 2 ^ 24 + b * 2 ^ 16 + c * 2 ^ 8 + d) * 2 ^ 32
high_4 a b c d hb hc hd = rw (or_aligned 56 a (a * 2 ^ 56) (b * 2 ^ 48) refl (omega arith)) (
    rw
      (or_aligned 48 (a * 256 + b) (a * 2 ^ 56 + b * 2 ^ 48) (c * 2 ^ 40) (omega arith)
        (omega arith))
      (or_aligned 40 (a * 65536 + b * 256 + c) (a * 2 ^ 56 + b * 2 ^ 48 + c * 2 ^ 40) (d * 2 ^ 32)
          (omega arith) (omega arith)
        ∙ omega arith))

word_8 :
    (w a b c d : ℕ)
    → a < 256
    → b < 256
    → c < 256
    → d < 256
    → bit_or (bit_or (bit_or (bit_or (w * 2 ^ 32) (a * 2 ^ 24)) (b * 2 ^ 16)) (c * 2 ^ 8)) d
      ≡ w * 2 ^ 32 + a * 2 ^ 24 + b * 2 ^ 16 + c * 2 ^ 8 + d
word_8 w a b c d ha hb hc hd = rw (or_aligned 32 w (w * 2 ^ 32) (a * 2 ^ 24) refl (omega arith)) (
    rw
      (or_aligned 24 (w * 256 + a) (w * 2 ^ 32 + a * 2 ^ 24) (b * 2 ^ 16) (omega arith)
        (omega arith))
      (rw
        (or_aligned 16 (w * 65536 + a * 256 + b) (w * 2 ^ 32 + a * 2 ^ 24 + b * 2 ^ 16) (c * 2 ^ 8)
          (omega arith) (omega arith))
        (or_aligned 8 (w * 16777216 + a * 65536 + b * 256 + c)
          (w * 2 ^ 32 + a * 2 ^ 24 + b * 2 ^ 16 + c * 2 ^ 8) d (omega arith) (omega arith))))

word_of_4-big_endian : (n : ℕ) → n < 2 ^ 32 → word_of_4 (big_endian 4 n) ≡ n
unfolding big_endian
word_of_4-big_endian n h =
    word_4 (n / 256 ^ 3 % 256) (n / 256 ^ 2 % 256) (n / 256 ^ 1 % 256) (n / 256 ^ 0 % 256)
      (omega arith) (omega arith) (omega arith)
    ∙ omega arith

word_of_8-big_endian : (n : ℕ) → n < 2 ^ 64 → word_of_8 (big_endian 8 n) ≡ n
unfolding big_endian
word_of_8-big_endian n h =
    rw
      (high_4 (n / 256 ^ 7 % 256) (n / 256 ^ 6 % 256) (n / 256 ^ 5 % 256) (n / 256 ^ 4 % 256)
        (omega arith) (omega arith) (omega arith))
      (word_8 _ (n / 256 ^ 3 % 256) (n / 256 ^ 2 % 256) (n / 256 ^ 1 % 256) (n / 256 ^ 0 % 256)
          (omega arith) (omega arith) (omega arith) (omega arith)
        ∙ omega arith)

module _ {E : Type 0} where
  pub read_le_u32_lem :
      (n : ℕ) (rest : List ℕ) (pos : ℕ)
      → n < 2 ^ 32
      → read_le_u32 {E = E} (reader_at pos (big_endian 4 n ++ rest))
        ≡ (ok n, reader_at (advance pos (big_endian 4 n)) rest)
  unfolding read_le_u32 big_endian
  read_le_u32_lem n rest pos h =
      rw (read_lem {E = E} (big_endian 4 n) rest pos, word_of_4-big_endian n h)

  pub read_le_u64_lem :
      (n : ℕ) (rest : List ℕ) (pos : ℕ)
      → n < 2 ^ 64
      → read_le_u64 {E = E} (reader_at pos (big_endian 8 n ++ rest))
        ≡ (ok n, reader_at (advance pos (big_endian 8 n)) rest)
  unfolding read_le_u64 big_endian
  read_le_u64_lem n rest pos h =
      rw (read_lem {E = E} (big_endian 8 n) rest pos, word_of_8-big_endian n h)

pub broken-appended :
    (writer : BinaryWriter) (bytes : List ℕ)
    → (appended writer bytes).internal.broken ≡ writer.internal.broken
unfolding appended
broken-appended writer bytes = refl
