-- ===== src/Client/Continuing.antt =====
-- What follows a complete chunk: the next one, or the end of the download (`process_transmit_chunk`
-- in rstr_client/src/client.rs).
use rstr.Prelude.{
  ℕ, ◌+◌, ◌^◌, ◌≤◌, ◌<◌, ◌≡◌, refl, ◌∙◌, false, none, some, List, [], ◌∷◌, ◌++◌, length, get_elem?,
}
use rstr.Prelude.Text.{Text, text_eq_refl}
use rstr.Prelude.Exec.{ok}
use rstr.Meta.Types.{Chunk, MetaIndexEntry}
use rstr.Meta.Index.{find_entry, mark_received, receive}
use rstr.Meta.Lookup.{find_entry-mark_received}
use rstr.Meta.Received.{IsReceived, receive-IsReceived}
use rstr.Meta.Storage.{save}
use rstr.Client.Types.{
  Platform, idle, Directory, ReceiverFile, file_finished_downloading, update_receiver_files,
}
use rstr.Client.Listing.{listing, receiver_file}
use rstr.Client.Receiver.{
  Receiver, RequestingFile, send_event, save_index, convert_index, find_first_undownloaded,
}
use rstr.Client.Chunks.{chunk_received, next_chunk, mark}
use rstr.Client.Receiving.{Downloading}
use rstr.Client.Requests.{ask_chunk_lem}

module _ (P : Platform) (s : Receiver P) (p : Text) (i : ℕ) (e : MetaIndexEntry)
    (found : find_entry s.index p ≡ some e) (fits : i < length e.meta.chunks)
    (saved : (save P.bincode (mark_received p i s.index).1 s.disk).0 ≡ ok tt)
    (running : s.stopped ≡ false) where
  -- The receiver when the chunk is marked and the index saved.
  abbrev pub marked_and_saved : Receiver P
  marked_and_saved = record s {
    index = (mark_received p i s.index).1;
    disk = (save P.bincode (mark_received p i s.index).1 s.disk).1;
    requesting_chunk = none;
  }

  pub found_marked : find_entry (mark_received p i s.index).1 p ≡ some (receive i e)
  found_marked = (find_entry-mark_received s.index p p i e found fits).1 ∙ rw (text_eq_refl p) refl

  pub to_next :
      chunk_received P p i s
      ≡ next_chunk P p (find_first_undownloaded P (receive i e)) marked_and_saved
  unfolding chunk_received mark save_index
  to_next =
      rw ((find_entry-mark_received s.index p p i e found fits).0) (rw saved (rw found_marked refl))

  -- After a chunk that is complete, while the index can be saved and the event loop runs, the
  -- receiver waits for the first chunk that is missing then, from its first byte on; the chunk lies
  -- within the file, the file's size fits a `u64`, and its place can be written.
  pub chunk_received-Downloading :
      (j : ℕ) (c : Chunk)
      → find_first_undownloaded P (receive i e) ≡ some j
      → get_elem? e.meta.chunks j ≡ some c
      → IsReceived e
      → c.offset + c.size ≤ e.meta.size
      → e.meta.size < 2 ^ 64
      → s.files.refused e.local_path ≡ false
      → (r : RequestingFile P) × ((chunk_received P p i s).0 ≡ ok tt)
        × (r.remote_path ≡ p)
        × (r.chunk_index ≡ j)
        × Downloading P (chunk_received P p i s).1 (receive i e) c r []
  unfolding next_chunk
  chunk_received-Downloading j c next there fine room small writable =
      let (r, went, events, path, index, d) =
        ask_chunk_lem P marked_and_saved p (receive i e) c j found_marked there
          (receive-IsReceived e i fits fine) room small writable running in
      rw to_next (rw next (r, went, path, index, d))

  -- After the last chunk that was missing, where the index can be saved and listed and the event loop
  -- runs, the receiver is idle again, has no requested chunk, and reports the end of the download
  -- and the new listing.
  pub chunk_received-finishes :
      (shown : List Directory × List ReceiverFile)
      → find_first_undownloaded P (receive i e) ≡ none
      → listing P (receiver_file P) (mark_received p i s.index).1 ≡ some shown
      → ((chunk_received P p i s).0 ≡ ok tt)
        × ((chunk_received P p i s).1.state ≡ idle)
        × ((chunk_received P p i s).1.requesting_chunk ≡ none)
        × ((chunk_received P p i s).1.events
            ≡ (s.events ++ file_finished_downloading p ∷ [])
              ++ update_receiver_files shown.0 shown.1 ∷ [])
  unfolding next_chunk convert_index send_event
  chunk_received-finishes shown done made =
      rw to_next (rw done (rw running (rw made (refl, refl, refl, refl))))
