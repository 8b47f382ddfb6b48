-- ===== src/Binary/RoundTrip.antt =====
-- What the writer of writer.rs and serialization.rs writes, the reader of reader.rs reads back.
use rstr.Prelude.{
  ℕ, ◌%◌, ◌^◌, ◌<◌, ◌≡◌, ◌∙◌, true, false, List, [], ◌∷◌, ◌++◌, length, append_assoc, append-nil,
  All, arith,
}
use rstr.Prelude.Int.{
  ℤ, IsSigned, to_unsigned, to_signed-to_unsigned_32, to_signed-to_unsigned_64, to_unsigned-lt_32,
  to_unsigned-lt_64,
}
use rstr.Prelude.Text.{Text, is_utf8}
use rstr.Prelude.Exec.{ok, map_err}
use rstr.Binary.Writer.{BinaryWriter, write_le_i32, write_le_i64, write_items, write_typed_array}
use rstr.Binary.Reader.{
  Utf8Error, from_utf8, read_le_i32, read_le_i64, read_items, read_typed_array, read_sized_str,
}
use rstr.Binary.Serialization.{
  BinaryRead, BinaryWrite, string_error, DeserializationError, SerializationError, write_string,
  u32_read, u64_read, i32_read, i64_read, u32_write, u64_write, i32_write, i64_write, string_write,
}
use rstr.Binary.Words.{
  big_endian, appended, broken-appended, reader_at, advance, appended-append, advance-append,
  write_lem, write_le_u32_lem, write_le_u64_lem, read_lem, read_le_u32_lem, read_le_u64_lem,
}

-- A writer and a reader agree on a value: the same bytes are what the one appends to any stream that
-- takes them, and what the other takes off any stream that begins with them.
pub record RoundTrips {A : Type 0} (w : BinaryWrite A) (r : BinaryRead A) (a : A) : Type 0 where
  pub bytes : List ℕ
  pub writes :
      (writer : BinaryWriter)
      → writer.internal.broken ≡ false
      → w.write_value a writer ≡ (ok tt, appended writer bytes)
  pub reads :
      (rest : List ℕ) (pos : ℕ)
      → r.read_value (reader_at pos (bytes ++ rest)) ≡ (ok a, reader_at (advance pos bytes) rest)

pub u32-RoundTrips : (n : ℕ) → n < 2 ^ 32 → RoundTrips u32_write u32_read n
u32-RoundTrips n h = record {
  bytes = big_endian 4 n;
  writes = write_le_u32_lem n;
  reads = λ rest pos. read_le_u32_lem n rest pos h;
}

pub u64-RoundTrips : (n : ℕ) → n < 2 ^ 64 → RoundTrips u64_write u64_read n
u64-RoundTrips n h = record {
  bytes = big_endian 8 n;
  writes = write_le_u64_lem n;
  reads = λ rest pos. read_le_u64_lem n rest pos h;
}

pub i32-RoundTrips : (z : ℤ) → IsSigned 32 z → RoundTrips i32_write i32_read z
unfolding write_le_i32 read_le_i32
i32-RoundTrips z h = record {
  bytes = big_endian 4 (to_unsigned 32 z);
  writes = write_le_u32_lem (to_unsigned 32 z);
  reads = λ rest pos. rw (
    read_le_u32_lem {E = DeserializationError} (to_unsigned 32 z) rest pos (to_unsigned-lt_32 z),
    to_signed-to_unsigned_32 z h,
  );
}

pub i64-RoundTrips : (z : ℤ) → IsSigned 64 z → RoundTrips i64_write i64_read z
unfolding write_le_i64 read_le_i64
i64-RoundTrips z h = record {
  bytes = big_endian 8 (to_unsigned 64 z);
  writes = write_le_u64_lem (to_unsigned 64 z);
  reads = λ rest pos. rw (
    read_le_u64_lem {E = DeserializationError} (to_unsigned 64 z) rest pos (to_unsigned-lt_64 z),
    to_signed-to_unsigned_64 z h,
  );
}

-- `read_sized_str().await?`, where the conversion of the error is `From<FromUtf8Error>`.
abbrev pub string_read : BinaryRead Text
string_read = record { read_value = map_err string_error read_sized_str }

small : (n : ℕ) → n < 2 ^ 32 → n % 2 ^ 32 ≡ n
small n h = omega arith

abbrev sized : Text → List ℕ
sized text = big_endian 4 (length text) ++ text

reads_sized :
    (text rest : Text) (pos : ℕ)
    → length text < 2 ^ 32
    → is_utf8 text ≡ true
    → read_sized_str (reader_at pos (sized text ++ rest))
      ≡ (ok text, reader_at (advance pos (sized text)) rest)
unfolding read_sized_str from_utf8
reads_sized text rest pos h valid = rw (
  append_assoc (big_endian 4 (length text)) text rest,
  read_le_u32_lem {E = Utf8Error} (length text) (text ++ rest) pos h,
  read_lem {E = Utf8Error} text rest (advance pos (big_endian 4 (length text))),
  valid,
  advance-append pos (big_endian 4 (length text)) text,
)

pub string-RoundTrips :
    (text : Text)
    → length text < 2 ^ 32
    → is_utf8 text ≡ true
    → RoundTrips string_write string_read text
unfolding write_string
string-RoundTrips text h valid = record {
  bytes = sized text;
  writes = λ writer fine.
      let size : List ℕ = big_endian 4 (length text) in
      rw (
        small (length text) h,
        write_le_u32_lem {E = SerializationError} (length text) writer fine,
        write_lem {E = SerializationError} text (appended writer size)
            (broken-appended writer size ∙ fine),
        appended-append writer size text,
      );
  reads = λ rest pos. rw (reads_sized text rest pos h valid);
}

-- `read_typed_array` undoes `write_typed_array` wherever the items round trip.
module _ {A : Type 0} (w : BinaryWrite A) (r : BinaryRead A) where
  abbrev pub array_write : BinaryWrite (List A)
  array_write = record { write_value = write_typed_array w.write_value }

  abbrev pub array_read : BinaryRead (List A)
  array_read = record { read_value = read_typed_array r.read_value }

  items_bytes : (items : List A) → All (RoundTrips w r) items → List ℕ
  items_bytes [] h = []
  items_bytes (a ∷ items) h = h.0.bytes ++ items_bytes items h.1

  writes_items :
      (items : List A) (h : All (RoundTrips w r) items) (writer : BinaryWriter) (before : List ℕ)
      → writer.internal.broken ≡ false
      → write_items w.write_value items (appended writer before)
        ≡ (ok tt, appended writer (before ++ items_bytes items h))
  unfolding write_items items_bytes
  writes_items [] h writer before fine = rw (append-nil before)
  writes_items (a ∷ items) h writer before fine = rw (
    h.0.writes (appended writer before) (broken-appended writer before ∙ fine),
    appended-append writer before h.0.bytes,
    writes_items items h.1 writer (before ++ h.0.bytes) fine,
    append_assoc before h.0.bytes (items_bytes items h.1),
  )

  reads_items :
      (items seen : List A) (h : All (RoundTrips w r) items) (before rest : List ℕ) (pos : ℕ)
      → read_items r.read_value
          (length items)
          seen
          (reader_at (advance pos before) (items_bytes items h ++ rest))
        ≡ (ok (seen ++ items), reader_at (advance pos (before ++ items_bytes items h)) rest)
  unfolding read_items items_bytes
  reads_items [] seen h before rest pos = rw (append-nil before, append-nil seen)
  reads_items (a ∷ items) seen h before rest pos = rw (
    append_assoc h.0.bytes (items_bytes items h.1) rest,
    h.0.reads (items_bytes items h.1 ++ rest) (advance pos before),
    advance-append pos before h.0.bytes,
    reads_items items (seen ++ a ∷ []) h.1 (before ++ h.0.bytes) rest pos,
    append_assoc seen (a ∷ []) items,
    append_assoc before h.0.bytes (items_bytes items h.1),
  )

  pub array-RoundTrips :
      (items : List A)
      → length items < 2 ^ 32
      → All (RoundTrips w r) items
      → RoundTrips array_write array_read items
  unfolding write_typed_array read_typed_array
  array-RoundTrips items small_array h = record {
    bytes = big_endian 4 (length items) ++ items_bytes items h;
    writes = λ writer fine. rw (
      small (length items) small_array,
      write_le_u32_lem {E = SerializationError} (length items) writer fine,
      writes_items items h writer (big_endian 4 (length items)) fine,
    );
    reads = λ rest pos. rw (
      append_assoc (big_endian 4 (length items)) (items_bytes items h) rest,
      read_le_u32_lem {E = DeserializationError} (length items) (items_bytes items h ++ rest) pos
          small_array,
      reads_items items [] h (big_endian 4 (length items)) rest pos,
    );
  }
