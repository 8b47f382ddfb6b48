-- ===== src/Client/Starting.antt =====
-- The start of a download: `request_file` and `resume_file` (rstr_client/src/client.rs).
use rstr.Prelude.{
  ℕ, ◌+◌, ◌^◌, ◌≤◌, ◌<◌, ◌≡◌, refl, ◌∙◌, false, none, some, List, [], ◌∷◌, ◌++◌, get_elem?,
}
use rstr.Prelude.Text.{Text, text_eq_refl}
use rstr.Prelude.Exec.{ok, err, ◌>>◌}
use rstr.Meta.Types.{Chunk, MetaIndexEntry}
use rstr.Meta.Index.{find_entry, change_local, relocate}
use rstr.Meta.Lookup.{find_entry-change_local}
use rstr.Meta.Received.{IsReceived}
use rstr.Meta.Storage.{save}
use rstr.Client.Types.{Platform, chunk_not_found, EventMessage, idle, send_message}
use rstr.Message.{message, request_chunk}
use rstr.Client.Receiver.{
  Receiver, RequestingFile, Step, send_event, ask_chunk, find_first_undownloaded, request_file,
  resume_file, move_file, save_index, check_state, started,
}
use rstr.Client.Receiving.{Downloading}
use rstr.Client.Requests.{ask_chunk_lem, ask_chunk-keeps}

module _ (P : Platform) where
  -- Nothing that a download rests on is in the messages to the event loop.
  Downloading-events :
      (s : Receiver P) (e : MetaIndexEntry) (c : Chunk) (r : RequestingFile P) (bytes : List ℕ)
      (events : List (EventMessage P.floats.F32))
      → Downloading P s e c r bytes
      → Downloading P (record s { events = events }) e c r bytes
  Downloading-events s e c r bytes events d = record {
    state = d.state;
    requesting = d.requesting;
    entry = d.entry;
    chunk = d.chunk;
    at_offset = d.at_offset;
    hashed = d.hashed;
    holds = d.holds;
    writable = d.writable;
    room = d.room;
    small = d.small;
    running = d.running;
  }

  then_sends :
      (m : Step P Unit) (s : Receiver P) (event : EventMessage P.floats.F32)
      → (m s).0 ≡ ok tt
      → (m s).1.stopped ≡ false
      → (m >> send_event P event) s
        ≡ (ok tt, record (m s).1 { events = (m s).1.events ++ event ∷ [] })
  unfolding send_event
  then_sends m s event fine running = rw fine (rw running refl)

  module _ (s : Receiver P) (p local_path : Text) (e : MetaIndexEntry) (is_idle : s.state ≡ idle)
      (found : find_entry s.index p ≡ some e)
      (saved : (save P.bincode (change_local p local_path s.index).1 s.disk).0 ≡ ok tt) where
    abbrev moved_and_saved : Receiver P
    moved_and_saved = record s {
      state = idle;
      index = (change_local p local_path s.index).1;
      disk = (save P.bincode (change_local p local_path s.index).1 s.disk).1;
    }

    found_moved : find_entry (change_local p local_path s.index).1 p ≡ some (relocate local_path e)
    found_moved =
        (find_entry-change_local s.index p p local_path e found).1 ∙ rw (text_eq_refl p) refl

    -- A file of the index without chunks cannot be downloaded: where the index can be saved and the
    -- receiver is idle, the request fails, though by then the file has its new place in the index.
    pub request_file_empty :
        get_elem? e.meta.chunks 0 ≡ none
        → ((request_file P p local_path s).0 ≡ err chunk_not_found)
          × (find_entry (request_file P p local_path s).1.index p ≡ some (relocate local_path e))
    unfolding request_file check_state move_file save_index ask_chunk find_entry
    request_file_empty empty = rw (is_idle) (
        rw found (
          rw ((find_entry-change_local s.index p p local_path e found).0)
            (rw saved (rw found_moved (rw empty (refl, found_moved))))))

    to_ask_first :
        request_file P p local_path s
        ≡ (ask_chunk P p 0 >> send_event P (started P p e.meta.size)) moved_and_saved
    unfolding request_file check_state move_file save_index
    to_ask_first =
        rw (is_idle) (
          rw found
            (rw ((find_entry-change_local s.index p p local_path e found).0) (rw saved refl)))

    -- A request for a file that is in the index, while the receiver is idle and the event loop runs,
    -- succeeds where the index can be saved, the first chunk lies within the file, the file's size
    -- fits a `u64` and its new place can be written: the entry has that place and no received chunk,
    -- and the receiver waits for the first chunk from its first byte on.
    pub request_file_lem :
        (c : Chunk)
        → get_elem? e.meta.chunks 0 ≡ some c
        → c.offset + c.size ≤ e.meta.size
        → e.meta.size < 2 ^ 64
        → s.files.refused local_path ≡ false
        → s.stopped ≡ false
        → (r : RequestingFile P) × ((request_file P p local_path s).0 ≡ ok tt)
          × (r.remote_path ≡ p)
          × (r.chunk_index ≡ 0)
          × Downloading P (request_file P p local_path s).1 (relocate local_path e) c r []
    request_file_lem c there room small writable running =
        let (r, fine, events, path, index, d) =
          ask_chunk_lem P moved_and_saved p (relocate local_path e) c 0 found_moved there
            (record { once = tt; known = tt }) room small writable running in
        let sends =
          then_sends (ask_chunk P p 0) moved_and_saved (started P p e.meta.size) fine d.running in
        rw to_ask_first
          (rw sends (r, refl, path, index, Downloading-events _ (relocate local_path e) c r [] _ d))

    -- What such a request sends: the message to the server, and the news for the window.
    pub request_file-events :
        (c : Chunk)
        → get_elem? e.meta.chunks 0 ≡ some c
        → c.offset + c.size ≤ e.meta.size
        → e.meta.size < 2 ^ 64
        → s.files.refused local_path ≡ false
        → s.stopped ≡ false
        → (request_file P p local_path s).1.events
          ≡ (s.events
              ++ send_message
                  (message (request_chunk (record { path = p; index = 0; hash = c.hash })))
                ∷ [])
            ++ started P p e.meta.size ∷ []
    request_file-events c there room small writable running =
        let (r, fine, events, path, index, d) =
          ask_chunk_lem P moved_and_saved p (relocate local_path e) c 0 found_moved there
            (record { once = tt; known = tt }) room small writable running in
        let sends =
          then_sends (ask_chunk P p 0) moved_and_saved (started P p e.meta.size) fine d.running in
        rw to_ask_first (rw sends (rw events refl))

    -- What such a request leaves behind: only the index has changed, in memory and on the disk.
    pub request_file-keeps :
        (c : Chunk)
        → get_elem? e.meta.chunks 0 ≡ some c
        → c.offset + c.size ≤ e.meta.size
        → e.meta.size < 2 ^ 64
        → s.files.refused local_path ≡ false
        → s.stopped ≡ false
        → ((request_file P p local_path s).1.index ≡ (change_local p local_path s.index).1)
          × ((request_file P p local_path s).1.files ≡ s.files)
          × ((request_file P p local_path s).1.disk
              ≡ (save P.bincode (change_local p local_path s.index).1 s.disk).1)
    request_file-keeps c there room small writable running =
        let (r, fine, events, path, index, d) =
          ask_chunk_lem P moved_and_saved p (relocate local_path e) c 0 found_moved there
            (record { once = tt; known = tt }) room small writable running in
        let sends =
          then_sends (ask_chunk P p 0) moved_and_saved (started P p e.meta.size) fine d.running in
        rw to_ask_first (rw sends (ask_chunk-keeps P p 0 moved_and_saved))

  module _ (s : Receiver P) (p : Text) (e : MetaIndexEntry) (i : ℕ) (is_idle : s.state ≡ idle)
      (found : find_entry s.index p ≡ some e) (fine : IsReceived e)
      (next : find_first_undownloaded P e ≡ some i) where
    to_ask_next :
        resume_file P p s
        ≡ (ask_chunk P p i >> send_event P (started P p e.meta.size)) (record s { state = idle })
    unfolding resume_file check_state ask_chunk
    to_ask_next = rw (is_idle) (rw found (rw next (rw (found, ask_chunk) refl)))

    pub resume_file_lem :
        (c : Chunk)
        → get_elem? e.meta.chunks i ≡ some c
        → c.offset + c.size ≤ e.meta.size
        → e.meta.size < 2 ^ 64
        → s.files.refused e.local_path ≡ false
        → s.stopped ≡ false
        → (r : RequestingFile P) × ((resume_file P p s).0 ≡ ok tt)
          × (r.remote_path ≡ p)
          × (r.chunk_index ≡ i)
          × Downloading P (resume_file P p s).1 e c r []
    resume_file_lem c there room small writable running =
        let (r, went, events, path, index, d) =
          ask_chunk_lem P (record s { state = idle }) p e c i found there fine room small writable
            running in
        let sends =
          then_sends (ask_chunk P p i) (record s { state = idle }) (started P p e.meta.size) went
            d.running in
        rw to_ask_next (rw sends (r, refl, path, index, Downloading-events _ e c r [] _ d))

    -- What such a request leaves as it was.
    pub resume_file-keeps :
        (c : Chunk)
        → get_elem? e.meta.chunks i ≡ some c
        → c.offset + c.size ≤ e.meta.size
        → e.meta.size < 2 ^ 64
        → s.files.refused e.local_path ≡ false
        → s.stopped ≡ false
        → ((resume_file P p s).1.index ≡ s.index)
          × ((resume_file P p s).1.files ≡ s.files)
          × ((resume_file P p s).1.disk ≡ s.disk)
    resume_file-keeps c there room small writable running =
        let (r, went, events, path, index, d) =
          ask_chunk_lem P (record s { state = idle }) p e c i found there fine room small writable
            running in
        let sends =
          then_sends (ask_chunk P p i) (record s { state = idle }) (started P p e.meta.size) went
            d.running in
        rw to_ask_next (rw sends (ask_chunk-keeps P p i (record s { state = idle })))
