-- ===== src/Client/Receiving.antt =====
-- A chunk that arrives in parts (`process_transmit_chunk` in rstr_client/src/client.rs).
use rstr.Prelude.{
  ℕ, ◌+◌, ◌%◌, ◌^◌, ◌≤◌, ◌<◌, ◌≡◌, refl, sym, ap, ◌∙◌, inl, inr, true, false, some, List, ◌++◌,
  length, ltb, if◌then◌else◌, drop, get_elem?, arith, Bool-cases, length-append, length-drop,
  append_assoc,
}
use rstr.Prelude.Int.{to_unsigned}
use rstr.Prelude.Text.{Text, text_eq, text_eq_refl}
use rstr.Prelude.Exec.{ok}
use rstr.Meta.Types.{Chunk, MetaIndexEntry}
use rstr.Meta.Index.{find_entry}
use rstr.Meta.Hash.{Absorbed, write-Absorbed}
use rstr.Message.{transmit_chunk}
use rstr.Client.Types.{Platform, requested_chunk}
use rstr.Client.Receiver.{Receiver, RequestingFile, Files}
use rstr.Client.Chunks.{
  set_len, write_at, bytes_of, written_file, writing_task, part_received, check_part, after_part,
  receive_part, process_transmit_chunk, process_message,
}
use rstr.Client.Files.{length-set_len, set_len_same, write_at-append}

-- The local file, at the length that it will have, holds these bytes at an offset.
pub record Holds (files : Files) (path : Text) (total offset : ℕ) (bytes : List ℕ) : Type 0 where
  pub before : List ℕ
  pub after : List ℕ
  pub parts : set_len total (bytes_of (files.stored path)) ≡ before ++ (bytes ++ after)
  pub at_offset : length before ≡ offset

module _ (files : Files) (path : Text) (total offset : ℕ) (bytes buffer : List ℕ)
    (fits : offset + length bytes + length buffer ≤ total)
    (h : Holds files path total offset bytes) where
  open h use {before, after}

  -- The bytes of the file after one more part.
  pub after_write :
      written_file files path total (offset + length bytes) buffer
      ≡ before ++ ((bytes ++ buffer) ++ drop (length buffer) after)
  unfolding written_file
  after_write =
      ap (write_at (offset + length bytes) buffer) (h.parts ∙ sym (append_assoc before bytes after))
      ∙ write_at-append (offset + length bytes) (before ++ bytes) buffer after
          (omega (arith, length-append before bytes, h.at_offset))
      ∙ simp append_assoc

  pub length_kept : length (before ++ ((bytes ++ buffer) ++ drop (length buffer) after)) ≡ total
  length_kept = omega (
    arith,
    length-append before ((bytes ++ buffer) ++ drop (length buffer) after),
    length-append (bytes ++ buffer) (drop (length buffer) after),
    length-append bytes buffer,
    length-drop (length buffer) after,
    ap length h.parts,
    length-set_len total (bytes_of (files.stored path)),
    length-append before (bytes ++ after),
    length-append bytes after,
    h.at_offset,
  )

  write-Holds :
      (files' : Files)
      → bytes_of (files'.stored path) ≡ written_file files path total (offset + length bytes) buffer
      → Holds files' path total offset (bytes ++ buffer)
  write-Holds files' e = record {
    before = before;
    after = drop (length buffer) after;
    parts =
        ap (set_len total) (e ∙ after_write)
        ∙ set_len_same total (before ++ ((bytes ++ buffer) ++ drop (length buffer) after))
            length_kept;
    at_offset = h.at_offset;
  }

module _ (P : Platform) where
  -- In the middle of a chunk: these bytes of it have come.
  pub record Downloading (receiver : Receiver P) (e : MetaIndexEntry) (c : Chunk)
      (r : RequestingFile P) (bytes : List ℕ) : Type 0 where
    pub state : receiver.state ≡ requested_chunk
    pub requesting : receiver.requesting_chunk ≡ some r
    pub entry : find_entry receiver.index r.remote_path ≡ some e
    pub chunk : get_elem? e.meta.chunks r.chunk_index ≡ some c
    pub at_offset : r.current_offset ≡ c.offset + length bytes
    pub hashed : Absorbed P.hasher r.chunk_hash_writer bytes
    pub holds : Holds receiver.files e.local_path e.meta.size c.offset bytes
    pub writable : receiver.files.refused e.local_path ≡ false
    pub room : c.offset + c.size ≤ e.meta.size
    pub small : e.meta.size < 2 ^ 64
    pub running : receiver.stopped ≡ false

  abbrev pub files_after : Files → MetaIndexEntry → ℕ → List ℕ → Files
  files_after files e offset buffer = record files {
    stored = λ path.
        if text_eq e.local_path path
        then some (record {
          bytes = written_file files e.local_path e.meta.size offset buffer;
          modified = to_unsigned 64 e.meta.file_modified;
        })
        else files.stored path;
  }

  -- The receiver after a part is written and hashed.
  abbrev pub with_part : Receiver P → MetaIndexEntry → RequestingFile P → List ℕ → Receiver P
  with_part receiver e r buffer = record receiver {
    files = files_after receiver.files e r.current_offset buffer;
    requesting_chunk = some (after_part P r buffer);
  }

  module _ (receiver : Receiver P) (e : MetaIndexEntry) (c : Chunk) (r : RequestingFile P)
      (bytes buffer : List ℕ) (d : Downloading receiver e c r bytes) where
    pub to_check_part :
        process_message P (transmit_chunk buffer) receiver
        ≡ check_part P
            (after_part P r buffer)
            c
            (P.floats.ratio (after_part P r buffer).total_downloaded e.meta.size)
            (with_part receiver e r buffer)
    unfolding process_message process_transmit_chunk receive_part writing_task
    to_check_part = rw (d.state) (rw (d.requesting) (rw (d.entry) (rw (d.writable) (rw (d.chunk)))))

    pub part-Holds :
        length bytes + length buffer ≤ c.size
        → Holds
            (files_after receiver.files e r.current_offset buffer)
            e.local_path
            e.meta.size
            c.offset
            (bytes ++ buffer)
    unfolding bytes_of written_file
    part-Holds within =
        write-Holds receiver.files e.local_path e.meta.size c.offset bytes buffer
          (omega (arith, d.room)) d.holds (files_after receiver.files e r.current_offset buffer)
          (rw (text_eq_refl e.local_path) (
            ap (λ (o : ℕ). written_file receiver.files e.local_path e.meta.size o buffer)
              d.at_offset))

    -- A part of the chunk that is not its last one.
    module _ (more : length bytes + length buffer < c.size) where
      -- Whatever progress is noted and reported.
      more-Downloading :
          (p : P.floats.F32) (s : Receiver P)
          → s.state ≡ requested_chunk
          → s.index ≡ receiver.index
          → s.requesting_chunk ≡ some (record (after_part P r buffer) { progress = p })
          → s.files ≡ files_after receiver.files e r.current_offset buffer
          → s.stopped ≡ false
          → Downloading s e c (record (after_part P r buffer) { progress = p }) (bytes ++ buffer)
      more-Downloading p s st ix rq fs run = record {
        state = st;
        requesting = rq;
        entry = rw ix d.entry;
        chunk = d.chunk;
        at_offset = omega (arith, d.at_offset, d.room, d.small, length-append bytes buffer);
        hashed = write-Absorbed P.hasher r.chunk_hash_writer bytes buffer d.hashed;
        holds = rw fs (part-Holds (omega arith));
        writable = rw fs d.writable;
        room = d.room;
        small = d.small;
        running = run;
      }

      -- A part after which the chunk does not have its size yet is taken without an error: it is in
      -- the file after the bytes that came before, it is hashed, the index is as it was, in memory and
      -- on the disk, and the
      -- receiver waits for the rest of the chunk, whether its progress is reported or not.
      pub receive_more :
          (p : P.floats.F32) × ((process_message P (transmit_chunk buffer) receiver).0 ≡ ok tt)
          × ((process_message P (transmit_chunk buffer) receiver).1.index ≡ receiver.index)
          × ((process_message P (transmit_chunk buffer) receiver).1.disk ≡ receiver.disk)
          × Downloading
              (process_message P (transmit_chunk buffer) receiver).1
              e
              c
              (record (after_part P r buffer) { progress = p })
              (bytes ++ buffer)
      unfolding check_part part_received
      receive_more =
          let new_progress : P.floats.F32 =
            P.floats.ratio (after_part P r buffer).total_downloaded e.meta.size in
          let incomplete : ltb (after_part P r buffer).current_offset ((c.offset + c.size) % 2 ^ 64)
              ≡ true =
            ground (arith, d.at_offset, d.room, d.small) in
          rw to_check_part (
            rw (incomplete, check_part)
              (elim (Bool-cases (P.floats.moved new_progress r.progress)) [
                | inl moved ↦
                    rw (moved, part_received)
                      (rw (d.running) (
                        new_progress,
                        refl,
                        refl,
                        refl,
                        more-Downloading new_progress _ d.state refl refl refl refl,
                      ))
                | inr not_moved ↦
                    rw (not_moved, part_received)
                      (
                        r.progress,
                        refl,
                        refl,
                        refl,
                        more-Downloading r.progress _ d.state refl refl refl d.running,
                      )
              ]))
