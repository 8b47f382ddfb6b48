-- ===== src/Client/Contents.antt =====
-- The bytes of the local file, position by position, while the parts of a chunk come
-- (`process_transmit_chunk` in rstr_client/src/client.rs).
use rstr.Prelude.{
  ℕ, ◌+◌, ◌-◌, ◌%◌, ◌^◌, ◌≤◌, ◌<◌, ◌≡◌, refl, sym, ap, ◌∙◌, ◌⊎◌, inl, inr, some, List, [], ◌∷◌,
  ◌++◌, length, ltb, ◌==◌, take, drop, get_elem?, arith, Bool-cases, All, concat, length-append,
  length-take, length-drop, append-nil,
}
use rstr.Prelude.Int.{to_unsigned}
use rstr.Prelude.Text.{Text, text_eq_refl}
use rstr.Prelude.Positions.{get_elem?-left, get_elem?-right, get_elem?-drop, get_elem?-take}
use rstr.Meta.Types.{Chunk, MetaIndexEntry}
use rstr.Message.{transmit_chunk}
use rstr.Client.Types.{Platform}
use rstr.Client.Receiver.{Receiver, RequestingFile, Files}
use rstr.Client.Chunks.{
  set_len, bytes_of, written_file, process_message, part_received, check_part, after_part,
}
use rstr.Client.Files.{set_len_same}
use rstr.Client.Receiving.{
  Holds, Downloading, after_write, length_kept, files_after, with_part, to_check_part, receive_more,
}
use rstr.Client.Completing.{get_elem?-below, send_event-keeps, chunk_received-marks}
use rstr.Client.Transfers.{receive_all, receive_one}

-- The local file at the length that it will have.
abbrev pub content : Files → Text → ℕ → List ℕ
content files path total = set_len total (bytes_of (files.stored path))

-- The same bytes from one position up to another.
abbrev pub AgreeOn : List ℕ → List ℕ → ℕ → ℕ → Type 0
AgreeOn xs ys from to = (k : ℕ) → from ≤ k → k < to → get_elem? xs k ≡ get_elem? ys k

-- The same bytes before one position, and from another on.
abbrev pub AgreeOff : List ℕ → List ℕ → ℕ → ℕ → Type 0
AgreeOff xs ys from to = (k : ℕ) → (k < from) ⊎ (to ≤ k) → get_elem? xs k ≡ get_elem? ys k

pub Holds-AgreeOn :
    (files : Files) (path : Text) (total offset size : ℕ) (file : List ℕ)
    → offset + size ≤ length file
    → Holds files path total offset (take size (drop offset file))
    → AgreeOn (content files path total) file offset (offset + size)
Holds-AgreeOn files path total offset size file fits h k from to =
    let slice : List ℕ = take size (drop offset file) in
    let long : k - offset < length slice =
      omega (arith, length-take size (drop offset file), length-drop offset file) in
    ap (λ bytes. get_elem? bytes k) h.parts
    ∙ get_elem?-right h.before (slice ++ h.after) k (k - offset) (omega (arith, h.at_offset))
    ∙ get_elem?-left slice h.after (k - offset) long
    ∙ get_elem?-take size (k - offset) (drop offset file) (omega arith)
    ∙ get_elem?-drop offset (k - offset) k file (omega arith)

-- What is before the bytes, and what is after the new ones, stays.
replaced-AgreeOff :
    (before bytes buffer after : List ℕ) (from to : ℕ)
    → length before ≡ from
    → from + length bytes + length buffer ≤ to
    → AgreeOff
        (before ++ ((bytes ++ buffer) ++ drop (length buffer) after))
        (before ++ (bytes ++ after))
        from
        to
replaced-AgreeOff before bytes buffer after from to at within k (inl left) =
    get_elem?-left before ((bytes ++ buffer) ++ drop (length buffer) after) k (omega arith)
    ∙ sym (get_elem?-left before (bytes ++ after) k (omega arith))
replaced-AgreeOff before bytes buffer after from to at within k (inr right) =
    let m : ℕ = k - from - length bytes in
    get_elem?-right before ((bytes ++ buffer) ++ drop (length buffer) after) k (length bytes + m)
      (omega arith)
    ∙ get_elem?-right (bytes ++ buffer) (drop (length buffer) after) (length bytes + m)
        (m - length buffer) (omega (arith, length-append bytes buffer))
    ∙ get_elem?-drop (length buffer) (m - length buffer) m after (omega arith)
    ∙ sym (
        get_elem?-right before (bytes ++ after) k (length bytes + m) (omega arith)
        ∙ get_elem?-right bytes after (length bytes + m) m refl)

-- The local file has the length and the time of the metadata.
pub record IsStamped (files : Files) (e : MetaIndexEntry) : Type 0 where
  pub bytes : List ℕ
  pub there :
      files.stored e.local_path
      ≡ some (record { bytes = bytes; modified = to_unsigned 64 e.meta.file_modified })
  pub sized : length bytes ≡ e.meta.size

-- From the old files to the new ones only this chunk of the local file changes.
pub record Changes (old new : Files) (e : MetaIndexEntry) (c : Chunk) : Type 0 where
  pub stamped : IsStamped new e
  pub elsewhere :
      AgreeOff
        (content new e.local_path e.meta.size)
        (content old e.local_path e.meta.size)
        c.offset
        (c.offset + c.size)

pub Changes-trans :
    (a b c : Files) (e : MetaIndexEntry) (chunk : Chunk)
    → Changes a b e chunk
    → Changes b c e chunk
    → Changes a c e chunk
Changes-trans a b c e chunk first second = record {
  stamped = second.stamped;
  elsewhere = λ k off. second.elsewhere k off ∙ first.elsewhere k off;
}

module _ (P : Platform) where
  part_received-files :
      (r : RequestingFile P) (p : P.floats.F32) (s : Receiver P)
      → (part_received P r p s).1.files ≡ s.files
  unfolding part_received
  part_received-files r p s = elim (Bool-cases (P.floats.moved p r.progress)) [
    | inl moved ↦ rw moved ((send_event-keeps P _ _).1)
    | inr still ↦ rw still refl
  ]

  module _ (receiver : Receiver P) (e : MetaIndexEntry) (c : Chunk) (r : RequestingFile P)
      (bytes buffer : List ℕ) (d : Downloading P receiver e c r bytes)
      (within : length bytes + length buffer ≤ c.size) where
    -- Whatever is found out about the chunk, the files are those after the part is written.
    message-files :
        (process_message P (transmit_chunk buffer) receiver).1.files
        ≡ files_after P receiver.files e r.current_offset buffer
    unfolding check_part
    message-files =
        let s : Receiver P = with_part P receiver e r buffer in
        let to_check = to_check_part P receiver e c r bytes buffer d in
        rw to_check
          (elim (Bool-cases
            (ltb (after_part P r buffer).current_offset ((c.offset + c.size) % 2 ^ 64))) [
              | inl more ↦ rw (more, check_part) (part_received-files (after_part P r buffer) _ s)
              | inr full ↦
                  elim (Bool-cases
                    (c.hash == P.hasher.digest (after_part P r buffer).chunk_hash_writer)) [
                      | inl right ↦
                          rw (full, check_part)
                            (rw right (
                              (chunk_received-marks P r.remote_path r.chunk_index s e d.entry
                                (get_elem?-below e.meta.chunks r.chunk_index c d.chunk)).1))
                      | inr wrong ↦ rw (full, check_part) (rw wrong refl)
                    ]
            ])

    part-Changes :
        Changes receiver.files (files_after P receiver.files e r.current_offset buffer) e c
    unfolding bytes_of
    part-Changes =
        let room : c.offset + length bytes + length buffer ≤ e.meta.size = omega (arith, d.room) in
        let h = d.holds in
        let replaced : List ℕ = h.before ++ ((bytes ++ buffer) ++ drop (length buffer) h.after) in
        let written : written_file receiver.files e.local_path e.meta.size r.current_offset buffer
            ≡ replaced =
          ap (λ (o : ℕ). written_file receiver.files e.local_path e.meta.size o buffer) d.at_offset
          ∙ after_write receiver.files e.local_path e.meta.size c.offset bytes buffer room h in
        let sized : length replaced ≡ e.meta.size =
          length_kept receiver.files e.local_path e.meta.size c.offset bytes buffer room h in
        let new : Files = files_after P receiver.files e r.current_offset buffer in
        let there : new.stored e.local_path
            ≡ some (record { bytes = replaced; modified = to_unsigned 64 e.meta.file_modified }) =
          rw (text_eq_refl e.local_path) (rw written refl) in
        let holds : content new e.local_path e.meta.size ≡ replaced =
          ap (λ file. set_len e.meta.size (bytes_of file)) there
          ∙ set_len_same e.meta.size replaced sized in
        record {
          stamped = record { bytes = replaced; there = there; sized = sized };
          elsewhere = λ k off.
              ap (λ xs. get_elem? xs k) holds
              ∙ replaced-AgreeOff h.before bytes buffer h.after c.offset (c.offset + c.size)
                  h.at_offset (omega arith) k off
              ∙ sym (ap (λ xs. get_elem? xs k) h.parts);
        }

    pub message-Changes :
        Changes receiver.files (process_message P (transmit_chunk buffer) receiver).1.files e c
    message-Changes = rw message-files part-Changes

  -- All the parts of a chunk.
  pub receive_all-Changes :
      (receiver : Receiver P) (e : MetaIndexEntry) (c : Chunk) (r : RequestingFile P)
      (bytes : List ℕ) (buffers : List (List ℕ))
      → Downloading P receiver e c r bytes
      → All (λ b. 0 < length b) buffers
      → length bytes < c.size
      → length bytes + length (concat buffers) ≡ c.size
      → Changes receiver.files (receive_all P buffers receiver).1.files e c
  unfolding receive_all
  receive_all-Changes receiver e c r bytes [] d some_bytes below full = absurd (omega arith)
  receive_all-Changes receiver e c r bytes (b ∷ []) d some_bytes below full =
      rw (receive_one P b receiver)
        (message-Changes receiver e c r bytes b d (omega (arith, ap length (append-nil b))))
  receive_all-Changes receiver e c r bytes (b ∷ b' ∷ buffers) d some_bytes below full =
      let rest : List ℕ = concat (b' ∷ buffers) in
      let more : length bytes + length b < c.size =
        omega (arith, some_bytes.1.0, length-append b rest, length-append b' (concat buffers)) in
      let (p, went, kept, saved, next) = receive_more P receiver e c r bytes b d more in
      let mid : Receiver P = (process_message P (transmit_chunk b) receiver).1 in
      rw went (
        Changes-trans receiver.files mid.files (receive_all P (b' ∷ buffers) mid).1.files e c
          (message-Changes receiver e c r bytes b d (omega arith))
          (receive_all-Changes mid e c (record (after_part P r b) { progress = p }) (bytes ++ b)
            (b' ∷ buffers) next some_bytes.1 (omega (arith, length-append bytes b))
            (omega (arith, length-append bytes b, length-append b rest))))
