-- ===== src/Client/Completing.antt =====
-- The last part of a chunk (`process_transmit_chunk` in rstr_client/src/client.rs).
use rstr.Prelude.{
  ℕ, zero, suc, ◌+◌, ◌%◌, ◌^◌, ◌<◌, ◌≡◌, refl, ap, ◌∙◌, inl, inr, true, false, Option, none, some,
  List, [], ◌∷◌, ◌++◌, length, ltb, ◌==◌, if◌then◌else◌, get_elem?, arith, Bool-cases, Option-cases,
}
use rstr.Prelude.Text.{Text, text_eq_refl}
use rstr.Meta.Storage.{save}
use rstr.Prelude.Exec.{Outcome-cases, err}
use rstr.Meta.Types.{Chunk, MetaIndexEntry}
use rstr.Meta.Index.{find_entry, mark_received, receive}
use rstr.Meta.Hash.{write-Absorbed, Absorbed-digest}
use rstr.Message.{transmit_chunk}
use rstr.Client.Types.{Platform, invalid_hash, EventMessage}
use rstr.Client.Listing.{listing, receiver_file}
use rstr.Client.Requests.{ask_chunk-keeps}
use rstr.Meta.Lookup.{find_entry-mark_received}
use rstr.Client.Receiver.{
  Receiver, RequestingFile, send_event, save_index, convert_index, find_first_undownloaded,
}
use rstr.Client.Chunks.{process_message, check_part, after_part, chunk_received, next_chunk, mark}
use rstr.Client.Receiving.{Downloading, with_part, to_check_part, part-Holds, Holds}

pub get_elem?-below :
    {A : Type 0} → (xs : List A) (i : ℕ) (x : A) → get_elem? xs i ≡ some x → i < length xs
get_elem?-below [] i x h = cc
get_elem?-below (y ∷ xs) zero x h = omega arith
get_elem?-below (y ∷ xs) (suc i) x h = omega (arith, get_elem?-below xs i x h)

module _ (P : Platform) (receiver : Receiver P) (e : MetaIndexEntry) (c : Chunk)
    (r : RequestingFile P) (bytes buffer : List ℕ) (d : Downloading P receiver e c r bytes)
    (full : length bytes + length buffer ≡ c.size) where
  -- The part with which a chunk has its size is judged by the hash of all the bytes that came: with
  -- the chunk's hash the receiver goes on to mark the chunk, with another one the result is the
  -- error with both hashes. In both cases the part is in the file by then.
  pub receive_last : process_message P (transmit_chunk buffer) receiver ≡ (
      if c.hash == P.hasher.hash (bytes ++ buffer)
      then chunk_received P r.remote_path r.chunk_index (with_part P receiver e r buffer)
      else (
        err (invalid_hash c.hash (P.hasher.hash (bytes ++ buffer))),
        with_part P receiver e r buffer,
      ))
  unfolding check_part
  receive_last =
      let digest : P.hasher.digest (P.hasher.write r.chunk_hash_writer buffer)
          ≡ P.hasher.hash (bytes ++ buffer) =
        Absorbed-digest P.hasher _ (bytes ++ buffer)
          (write-Absorbed P.hasher r.chunk_hash_writer bytes buffer d.hashed) in
      let complete : ltb (after_part P r buffer).current_offset ((c.offset + c.size) % 2 ^ 64)
          ≡ false =
        ground (arith, d.at_offset, d.room, d.small) in
      to_check_part P receiver e c r bytes buffer d
      ∙ rw (complete, check_part)
          (rw digest (elim (Bool-cases (c.hash == P.hasher.hash (bytes ++ buffer))) [
            | inl right ↦ rw right refl
            | inr wrong ↦ rw wrong refl
          ]))

module _ (P : Platform) where
  pub send_event-keeps :
      (m : EventMessage P.floats.F32) (s : Receiver P)
      → ((send_event P m s).1.index ≡ s.index) × ((send_event P m s).1.files ≡ s.files)
  unfolding send_event
  send_event-keeps m s = elim (Bool-cases s.stopped) [
    | inl gone ↦ rw gone (refl, refl)
    | inr running ↦ rw running (refl, refl)
  ]

  pub next_chunk-keeps :
      (p : Text) (next : Option ℕ) (s : Receiver P)
      → ((next_chunk P p next s).1.index ≡ s.index)
        × ((next_chunk P p next s).1.files ≡ s.files)
        × ((next_chunk P p next s).1.disk ≡ s.disk)
  unfolding next_chunk convert_index send_event
  next_chunk-keeps p (some i) s = ask_chunk-keeps P p i s
  next_chunk-keeps p none s = elim (Bool-cases s.stopped) [
    | inl gone ↦ rw gone (refl, refl, refl)
    | inr running ↦ elim (Option-cases (listing P (receiver_file P) s.index)) [
      | inl lost ↦ rw running (rw lost (refl, refl, refl))
      | inr (shown, made) ↦ rw running (rw made (refl, refl, refl))
    ]
  ]

  -- For a chunk that a file of the index has, what follows its last part marks it in the entry,
  -- whatever comes of saving the index and of asking for the next chunk, and leaves the local files
  -- as they are.
  pub chunk_received-marks :
      (p : Text) (i : ℕ) (s : Receiver P) (e : MetaIndexEntry)
      → find_entry s.index p ≡ some e
      → i < length e.meta.chunks
      → (find_entry (chunk_received P p i s).1.index p ≡ some (receive i e))
        × ((chunk_received P p i s).1.files ≡ s.files)
  unfolding chunk_received mark save_index find_entry find_first_undownloaded
  chunk_received-marks p i s e found fits =
      let (marks, finds) = find_entry-mark_received s.index p p i e found fits in
      let at_p : find_entry (mark_received p i s.index).1 p ≡ some (receive i e) =
        finds ∙ rw (text_eq_refl p) refl in
      rw marks (elim (Outcome-cases (save P.bincode (mark_received p i s.index).1 s.disk).0) [
        | inr (inr crashed) ↦ rw crashed (at_p, refl)
        | inr (inl (f, failed)) ↦ rw failed (at_p, refl)
        | inl (u, saved) ↦
            let kept = next_chunk-keeps p (find_first_undownloaded P (receive i e)) in
            rw saved (rw at_p (ap (λ index. find_entry index p) (kept _).0 ∙ at_p, (kept _).1))
      ])

-- A part that completes a chunk with the right hash.
module _ (P : Platform) (receiver : Receiver P) (e : MetaIndexEntry) (c : Chunk)
    (r : RequestingFile P) (bytes buffer : List ℕ) (d : Downloading P receiver e c r bytes)
    (full : length bytes + length buffer ≡ c.size)
    (right : c.hash ≡ P.hasher.hash (bytes ++ buffer)) where
  pub part_completes :
      (find_entry (process_message P (transmit_chunk buffer) receiver).1.index r.remote_path
        ≡ some (receive r.chunk_index e))
      × Holds
          (process_message P (transmit_chunk buffer) receiver).1.files
          e.local_path
          e.meta.size
          c.offset
          (bytes ++ buffer)
  part_completes =
      let test : (c.hash == P.hasher.hash (bytes ++ buffer)) ≡ true = ground arith in
      let completes : process_message P (transmit_chunk buffer) receiver
          ≡ chunk_received P r.remote_path r.chunk_index (with_part P receiver e r buffer) =
        receive_last P receiver e c r bytes buffer d full ∙ rw test refl in
      let marked =
        chunk_received-marks P r.remote_path r.chunk_index (with_part P receiver e r buffer) e
          d.entry (get_elem?-below e.meta.chunks r.chunk_index c d.chunk) in
      rw completes
        (marked.0, rw (marked.1) (part-Holds P receiver e c r bytes buffer d (omega arith)))

module _ (P : Platform) (receiver : Receiver P) (e : MetaIndexEntry) (c : Chunk)
    (r : RequestingFile P) (bytes buffer : List ℕ) (d : Downloading P receiver e c r bytes)
    (full : length bytes + length buffer ≡ c.size)
    (right : c.hash ≡ P.hasher.hash (bytes ++ buffer)) where
  pub part_ends :
      process_message P (transmit_chunk buffer) receiver
      ≡ chunk_received P r.remote_path r.chunk_index (with_part P receiver e r buffer)
  part_ends =
      let test : (c.hash == P.hasher.hash (bytes ++ buffer)) ≡ true = ground arith in
      receive_last P receiver e c r bytes buffer d full ∙ rw test refl
