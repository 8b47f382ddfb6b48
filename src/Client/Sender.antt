-- ===== src/Client/Sender.antt =====
-- `Sender` of rstr_client/src/client.rs: its state and operations. Beside its fields stand the disk
-- of the index, what it has sent to its own event loop, the cancelled tokens, the number of tokens
-- made, and the transfers that it has spawned.
use rstr.Prelude.{
  ℕ, ◌+◌, Bool, false, Option, none, some, List, [], ◌∷◌, ◌++◌, ◌==◌, if◌then◌else◌, get_elem?,
}
use rstr.Prelude.Int.{ℤ}
use rstr.Prelude.Text.{Text}
use rstr.Prelude.Exec.{
  Exec, Outcome, ok, err, panic, ◌>>=◌, ◌>>◌, fail, modify, ok_or, unwrap_option, unwrap,
}
use rstr.Meta.Types.{Chunk, Meta, MetaIndexEntry, MetaIndex, WriteToFileError, CreateMetadataError}
use rstr.Meta.Index.{find_entry, add_entry}
use rstr.Meta.Storage.{Disk, save, load}
use rstr.Meta.Create.{LocalFile, create_for_file}
use rstr.Message.{
  MessagePayload, LoginType, RequestChunkData, message, login, login_success, publish_meta,
  request_chunk, stop_chunk,
}
use rstr.Client.Types.{
  Platform, ClientHandlerError, wrong_state, io_error, not_supported, invalid_hash, file_not_found,
  chunk_not_found, EventMessage, send_message, update_sender_files, logged_in_as_sender,
  meta_created, meta_creation_error, SenderFile, Directory, SenderState,
}
use rstr.Client.Paths.{normalize_path}
use rstr.Client.Listing.{listing, sender_file}

-- What the task that `process_request_chunk` spawns has captured.
pub record Transfer : Type 0 where
  pub token : ℕ
  pub local_path : Text
  pub chunk_offset : ℕ
  pub chunk_size : ℕ

module _ (P : Platform) where
  pub record Sender : Type 0 where
    pub index : MetaIndex
    pub state : SenderState
    pub sender_cancellation_token : Option ℕ
    pub disk : Disk
    pub events : List (EventMessage P.floats.F32)
    pub stopped : Bool
    pub cancelled : List ℕ
    pub tokens : ℕ
    pub transfers : List Transfer

  abbrev pub SenderStep : Type 0 → Type 0
  SenderStep A = Exec ClientHandlerError Sender A

  -- `none` is `NewSenderError::MetaReadError`.
  unfoldable pub new : Disk → Option Sender
  new disk = elim (load P.bincode disk) [
    | ok index ↦ some (record {
      index = index;
      state = SenderState.initializing;
      sender_cancellation_token = none;
      disk = disk;
      events = [];
      stopped = false;
      cancelled = [];
      tokens = 0;
      transfers = [];
    })
    | err e ↦ none
    | panic ↦ none
  ]

  unfoldable pub send_event : EventMessage P.floats.F32 → SenderStep Unit
  send_event event sender =
      if sender.stopped
      then (err io_error, sender)
      else (ok tt, record sender { events = sender.events ++ event ∷ [] })

  unfoldable pub send_payload : MessagePayload → SenderStep Unit
  unfolding send_event
  send_payload payload = send_event (send_message (message payload))

  unfoldable pub log_in : Text → Text → SenderStep Unit
  unfolding send_payload
  log_in username password =
      send_payload
        (login (record { login_type = LoginType.sender; username = username; key = password }))

  -- The event that a task sends when `create_for_file` has ended.
  abbrev pub created : Text → Outcome CreateMetadataError Meta → EventMessage P.floats.F32
  created local_path (ok meta) =
      meta_created (record { local_path = local_path; received_chunks = []; meta = meta })
  created local_path (err e) = meta_creation_error
  created local_path panic = meta_creation_error

  -- The task of `create_meta`, without the reports of its progress.
  unfoldable pub create_meta : Text → Option LocalFile → Text → ℤ → EventMessage P.floats.F32
  unfolding create_for_file normalize_path
  create_meta local_path file remote_path now =
      created local_path (create_for_file P.hasher P.floats file (normalize_path remote_path) now).0

  -- The task of `create_multiple_meta`: the files in turn, each with its name and its time.
  unfoldable pub create_multiple_meta :
      List (Text × Text × Option LocalFile × ℤ) → Text → List (EventMessage P.floats.F32)
  unfolding create_for_file normalize_path
  create_multiple_meta [] remote_dir = []
  create_multiple_meta ((local_path, name, file, now) ∷ files) remote_dir =
      created local_path
        (create_for_file P.hasher P.floats file (normalize_path remote_dir ++ b'/' ∷ name) now).0
      ∷ create_multiple_meta files remote_dir

  with_disk : Sender → Outcome WriteToFileError Unit × Disk → Outcome WriteToFileError Unit × Sender
  with_disk sender (result, disk) = (result, record sender { disk = disk })

  -- `self.index.save(…)`
  unfoldable pub save_index : Exec WriteToFileError Sender Unit
  unfolding with_disk
  save_index sender = with_disk sender (save P.bincode sender.index sender.disk)

  unfoldable pub convert_index : SenderStep (List Directory × List SenderFile)
  unfolding listing sender_file
  convert_index sender = unwrap_option (listing P (sender_file P) sender.index) sender

  unfoldable pub on_meta_created : MetaIndexEntry → SenderStep Unit
  unfolding add_entry save_index convert_index send_event
  on_meta_created entry = do
    modify (λ sender. record sender { index = add_entry sender.index entry })
    unwrap save_index
    shown ← convert_index
    unwrap (send_event (update_sender_files shown.0 shown.1))

  abbrev pub find : Text → SenderStep MetaIndexEntry
  find remote_path sender =
      ok_or (find_entry sender.index remote_path) (file_not_found remote_path) sender

  unfoldable pub publish : Text → SenderStep Unit
  unfolding find_entry send_payload
  publish remote_path = do entry ← find remote_path; send_payload (publish_meta entry.meta)

  -- A request is served by a new task, under a new token.
  unfoldable pub start_transfer : MetaIndexEntry → Chunk → SenderStep Unit
  start_transfer entry chunk sender = (
    ok tt,
    record sender {
      tokens = sender.tokens + 1;
      sender_cancellation_token = some sender.tokens;
      transfers =
          sender.transfers
          ++ (record {
            token = sender.tokens;
            local_path = entry.local_path;
            chunk_offset = chunk.offset;
            chunk_size = chunk.size;
          }
              ∷ []);
    },
  )

  unfoldable pub process_request_chunk : RequestChunkData → SenderStep Unit
  unfolding find_entry start_transfer
  process_request_chunk request = do
    entry ← find request.path
    chunk ← ok_or (get_elem? entry.meta.chunks request.index) chunk_not_found
    if chunk.hash == request.hash
        then start_transfer entry chunk
        else fail (invalid_hash chunk.hash request.hash)

  -- `token.cancel()`
  unfoldable pub cancel_transfer : SenderStep Unit
  cancel_transfer sender = elim sender.sender_cancellation_token [
    | none ↦ (err wrong_state, sender)
    | some token ↦ (ok tt, record sender { cancelled = sender.cancelled ++ token ∷ [] })
  ]

  unfoldable pub process_message : MessagePayload → SenderStep Unit
  unfolding process_request_chunk cancel_transfer convert_index send_event
  process_message (request_chunk request) = process_request_chunk request
  process_message stop_chunk = cancel_transfer
  process_message login_success = do
    modify (λ sender. record sender { state = SenderState.idle })
    shown ← convert_index
    unwrap (send_event (logged_in_as_sender shown.0 shown.1))
  process_message _ = fail not_supported
