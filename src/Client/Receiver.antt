-- ===== src/Client/Receiver.antt =====
-- `Receiver` of rstr_client/src/client.rs: its state, and the operations that the user and the event
-- loop start. Beside its fields stand the disk of the index, the local files, and what it has sent
-- to its own event loop.
use rstr.Prelude.{
  ℕ, ◌+◌, ◌%◌, ◌^◌, Bool, false, Option, none, some, List, [], ◌∷◌, ◌++◌, length, if◌then◌else◌,
  zero, suc, get_elem?,
}
use rstr.Prelude.Int.{ℤ}
use rstr.Prelude.Text.{Text}
use rstr.Prelude.Exec.{
  Exec, Outcome, ok, err, panic, ◌>>=◌, ◌>>◌, modify, ok_or, unwrap_option, unwrap,
}
use rstr.Meta.Types.{Chunk, MetaIndexEntry, MetaIndex, MetaIndexError, WriteToFileError}
use rstr.Meta.Index.{contains, find_entry, change_local, get_last_updated}
use rstr.Meta.Storage.{Disk, save, load}
use rstr.Message.{
  MessagePayload, LoginType, message, login, request_meta, request_chunk, stop_chunk,
}
use rstr.Client.Types.{
  Platform, ClientHandlerError, wrong_state, io_error, file_not_found, chunk_not_found,
  file_is_downloaded, EventMessage, send_message, file_started_downloading, update_receiver_files,
  ReceiverFile, Directory, ReceiverState, state_eq, idle, requested_chunk,
}
use rstr.Client.Paths.{file_name}
use rstr.Client.Listing.{listing, receiver_file}

-- A local file: its bytes and the time of modification that was set.
pub record StoredFile : Type 0 where
  pub bytes : List ℕ
  pub modified : ℕ

-- The local files; `refused` are the paths at which opening, writing or syncing fails.
pub record Files : Type 0 where
  pub stored : Text → Option StoredFile
  pub refused : Text → Bool

module _ (P : Platform) where
  pub record RequestingFile : Type 0 where
    pub remote_path : Text
    pub total_downloaded : ℕ
    pub progress : P.floats.F32
    pub chunk_index : ℕ
    pub current_offset : ℕ
    pub chunk_hash_writer : P.hasher.State

  pub record Receiver : Type 0 where
    pub index : MetaIndex
    pub state : ReceiverState
    pub last_updated : ℤ
    pub requesting_chunk : Option RequestingFile
    pub disk : Disk
    pub files : Files
    pub events : List (EventMessage P.floats.F32)
    pub stopped : Bool

  -- A step of the receiver.
  abbrev pub Step : Type 0 → Type 0
  Step A = Exec ClientHandlerError Receiver A

  -- `none` is `NewReceiverError::MetaReadError`.
  unfoldable pub new : Disk → Files → Option Receiver
  new disk files = elim (load P.bincode disk) [
    | ok index ↦ some (record {
      index = index;
      state = ReceiverState.initializing;
      last_updated = get_last_updated index;
      requesting_chunk = none;
      disk = disk;
      files = files;
      events = [];
      stopped = false;
    })
    | err e ↦ none
    | panic ↦ none
  ]

  -- It fails where the event loop has ended.
  unfoldable pub send_event : EventMessage P.floats.F32 → Step Unit
  send_event event receiver =
      if receiver.stopped
      then (err io_error, receiver)
      else (ok tt, record receiver { events = receiver.events ++ event ∷ [] })

  unfoldable pub send_payload : MessagePayload → Step Unit
  unfolding send_event
  send_payload payload = send_event (send_message (message payload))

  unfoldable pub check_state : ReceiverState → Step Unit
  check_state state receiver =
      if state_eq receiver.state state then (ok tt, receiver) else (err wrong_state, receiver)

  unfoldable pub check_states : List ReceiverState → Step Unit
  check_states [] receiver = (err wrong_state, receiver)
  check_states (s ∷ states) receiver =
      if state_eq receiver.state s then (ok tt, receiver) else check_states states receiver

  unfoldable pub log_in : Text → Text → Step Unit
  unfolding send_payload
  log_in username password =
      send_payload
        (login (record { login_type = LoginType.receiver; username = username; key = password }))

  unfoldable pub ask_meta : ℤ → Step Unit
  unfolding check_state send_payload
  ask_meta after = do check_state idle; send_payload (request_meta after)

  unfoldable pub request_new_meta : Step Unit
  unfolding ask_meta
  request_new_meta receiver = ask_meta (get_last_updated receiver.index) receiver

  -- Indexing past the chunks panics: `none`.
  unfoldable pub sizes_from : List Chunk → ℕ → List ℕ → Option ℕ
  sizes_from chunks downloaded_size [] = some downloaded_size
  sizes_from chunks downloaded_size (c ∷ received) = elim (get_elem? chunks c) [
    | none ↦ none
    | some chunk ↦ sizes_from chunks ((downloaded_size + chunk.size) % 2 ^ 64) received
  ]

  unfoldable pub calculate_downloaded : MetaIndexEntry → Option ℕ
  unfolding sizes_from
  calculate_downloaded entry = sizes_from entry.meta.chunks 0 entry.received_chunks

  -- The rounds of `for i in 0..chunk_count as u32`, from `i` on.
  unfoldable pub first_missing : List ℕ → ℕ → ℕ → Option ℕ
  unfolding contains
  first_missing received i zero = none
  first_missing received i (suc rounds) =
      if contains received i then first_missing received (i + 1) rounds else some i

  unfoldable pub find_first_undownloaded : MetaIndexEntry → Option ℕ
  unfolding first_missing
  find_first_undownloaded entry =
      first_missing entry.received_chunks 0 (length entry.meta.chunks % 2 ^ 32)

  abbrev pub find : Text → Step MetaIndexEntry
  find remote_path receiver =
      ok_or (find_entry receiver.index remote_path) (file_not_found remote_path) receiver

  unfoldable pub ask_chunk : Text → ℕ → Step Unit
  unfolding find_entry send_payload calculate_downloaded
  ask_chunk remote_path chunk_index = do
    entry ← find remote_path
    chunk ← ok_or (get_elem? entry.meta.chunks chunk_index) chunk_not_found
    send_payload
        (request_chunk (record { path = remote_path; index = chunk_index; hash = chunk.hash }))
    total_downloaded ← unwrap_option (calculate_downloaded entry)
    modify (λ receiver. record receiver {
      requesting_chunk = some (record {
        remote_path = remote_path;
        total_downloaded = total_downloaded;
        progress = P.floats.zero_f32;
        chunk_index = chunk_index;
        current_offset = chunk.offset;
        chunk_hash_writer = P.hasher.new;
      });
      state = requested_chunk;
    })

  -- `self.index.save(…)`
  with_disk :
      Receiver → Outcome WriteToFileError Unit × Disk → Outcome WriteToFileError Unit × Receiver
  with_disk receiver (result, disk) = (result, record receiver { disk = disk })

  unfoldable pub save_index : Exec WriteToFileError Receiver Unit
  unfolding with_disk
  save_index receiver = with_disk receiver (save P.bincode receiver.index receiver.disk)

  with_index :
      Receiver → Outcome MetaIndexError Unit × MetaIndex → Outcome MetaIndexError Unit × Receiver
  with_index receiver (result, index) = (result, record receiver { index = index })

  -- `self.index.change_local(…)`
  unfoldable pub move_file : Text → Text → Exec MetaIndexError Receiver Unit
  unfolding with_index
  move_file remote_path local_path receiver =
      with_index receiver (change_local remote_path local_path receiver.index)

  abbrev pub started : Text → ℕ → EventMessage P.floats.F32
  started remote_path size =
      file_started_downloading remote_path (file_name remote_path) (P.format_size size) size

  unfoldable pub request_file : Text → Text → Step Unit
  unfolding check_state move_file save_index ask_chunk send_event
  request_file remote_path local_path = do
    check_state idle
    entry ← find remote_path
    unwrap (move_file remote_path local_path)
    unwrap save_index
    ask_chunk remote_path 0
    send_event (started remote_path entry.meta.size)

  unfoldable pub resume_file : Text → Step Unit
  unfolding check_state find_first_undownloaded ask_chunk send_event
  resume_file remote_path = do
    check_state idle
    entry ← find remote_path
    first_not_downloaded ← ok_or (find_first_undownloaded entry) file_is_downloaded
    ask_chunk remote_path first_not_downloaded
    send_event (started remote_path entry.meta.size)

  -- `let (dirs, files) = self.convert_index();`
  unfoldable pub convert_index : Step (List Directory × List ReceiverFile)
  unfolding listing receiver_file
  convert_index receiver = unwrap_option (listing P (receiver_file P) receiver.index) receiver

  unfoldable pub stop_transmition : Step Unit
  unfolding check_state send_payload convert_index send_event
  stop_transmition = do
    check_state requested_chunk
    send_payload stop_chunk
    modify (λ receiver. record receiver { state = idle })
    shown ← convert_index
    send_event (update_receiver_files shown.0 shown.1)
