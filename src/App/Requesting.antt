-- ===== src/App/Requesting.antt =====
-- A download that the user starts, from the event that the window sends to what the event loop of
-- rstr_client/src/main.rs tells the server and the window.
use rstr.Prelude.{
  ℕ, ◌+◌, ◌^◌, ◌≤◌, ◌<◌, ◌≡◌, refl, ◌∙◌, false, true, some, List, [], ◌∷◌, ◌++◌, get_elem?,
}
use rstr.Prelude.Text.{Text}
use rstr.Prelude.Exec.{ok}
use rstr.Meta.Types.{Chunk, MetaIndexEntry}
use rstr.Meta.Index.{find_entry, change_local, relocate}
use rstr.Meta.Storage.{save}
use rstr.Message.{message, request_chunk}
use rstr.Gui.Types.{ProcessingEvent}
use rstr.Client.Types.{Platform, idle, file_requested}
use rstr.Client.Paths.{file_name}
use rstr.Client.Receiver.{Receiver, RequestingFile, request_file}
use rstr.Client.Receiving.{Downloading}
use rstr.Client.Starting.{request_file_lem, request_file-events}
use rstr.App.State.{Codec, ClientType, App, for_receiver, put_receiver, show, write}
use rstr.App.Dispatch.{handle, send_encoded}
use rstr.App.Loop.{event_loop}

module _ (P : Platform) (C : Codec) (app : App P) (s : Receiver P) (p local_path : Text)
    (e : MetaIndexEntry) (c : Chunk) (bytes : List ℕ) where
  -- The app with an idle receiver that has nothing else to do than this request.
  pub record Asked : Type 0 where
    pub receiving : app.client ≡ ClientType.receiver s
    pub asked : app.events ≡ file_requested p local_path ∷ []
    pub window_open : app.window_open ≡ true
    pub socket_open : app.socket_open ≡ true
    pub is_idle : s.state ≡ idle
    pub running : s.stopped ≡ false
    pub found : find_entry s.index p ≡ some e
    pub saved : (save P.bincode (change_local p local_path s.index).1 s.disk).0 ≡ ok tt
    pub there : get_elem? e.meta.chunks 0 ≡ some c
    pub room : c.offset + c.size ≤ e.meta.size
    pub small : e.meta.size < 2 ^ 64
    pub writable : s.files.refused local_path ≡ false
    pub encoded :
        C.encode (message (request_chunk (record { path = p; index = 0; hash = c.hash })))
        ≡ some bytes

  module _ (a : Asked) where
    abbrev pub after : Receiver P
    after = (request_file P p local_path (record s { events = [] })).1

    abbrev handled : App P
    handled = record app {
      client = ClientType.receiver after;
      events = after.events;
      receiver_dir = after.disk;
      files = after.files;
    }

    two_left : event_loop P C 3 app ≡ event_loop P C 2 handled
    unfolding event_loop handle for_receiver put_receiver
    two_left =
        let (r, fine, path, index, d) =
          request_file_lem P (record s { events = [] }) p local_path e a.is_idle a.found a.saved c
            a.there a.room a.small a.writable a.running in
        rw (a.asked, event_loop) (rw (a.receiving) (rw fine refl))

    both_handled : event_loop P C 2 handled ≡ (
      ok tt,
      record handled {
        events = [];
        written = app.written ++ bytes ∷ [];
        window =
            app.window
            ++ ProcessingEvent.file_started_downloading p
                (file_name p)
                (P.format_size e.meta.size)
                e.meta.size
              ∷ [];
      },
    )
    unfolding event_loop handle send_encoded write show
    both_handled =
        rw
          (request_file-events P (record s { events = [] }) p local_path e a.is_idle a.found a.saved
            c a.there a.room a.small a.writable a.running)
          (rw (a.encoded) (rw (a.socket_open) (rw (a.window_open) refl)))

    -- The user's request for a file, alone in the channel of a program whose receiver is idle and whose
    -- socket and window are there, is handled in three rounds, where the file is in the index, its new
    -- place can be saved and written, its first chunk lies within it, its size fits a `u64` and the
    -- request has an encoding: the request for the first chunk is written into the socket, the
    -- window is told of the file, the channel is empty again, and the receiver waits for the first
    -- chunk from its first byte on.
    pub event_loop-file_requested :
        (q : RequestingFile P) × ((event_loop P C 3 app).0 ≡ ok tt)
        × ((event_loop P C 3 app).1.events ≡ [])
        × ((event_loop P C 3 app).1.written ≡ app.written ++ bytes ∷ [])
        × ((event_loop P C 3 app).1.window
            ≡ app.window
              ++ ProcessingEvent.file_started_downloading p
                  (file_name p)
                  (P.format_size e.meta.size)
                  e.meta.size
                ∷ [])
        × ((event_loop P C 3 app).1.client ≡ ClientType.receiver after)
        × Downloading P after (relocate local_path e) c q []
    event_loop-file_requested =
        let (q, fine, path, index, d) =
          request_file_lem P (record s { events = [] }) p local_path e a.is_idle a.found a.saved c
            a.there a.room a.small a.writable a.running in
        rw (two_left ∙ both_handled) (q, refl, refl, refl, refl, refl, d)
