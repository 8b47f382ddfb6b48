-- ===== src/App/Dispatch.antt =====
-- The `match` over the events in `event_processor_task` of rstr_client/src/main.rs. A printed error
-- is dropped; an `unwrap` that fails ends the task by a panic.
use rstr.Prelude.{ℕ, Option, none, some, List, [], ◌∷◌, ◌++◌}
use rstr.Prelude.Text.{Text, ascii}
use rstr.Prelude.Exec.{
  Outcome, ok, err, panic, ◌>>=◌, ◌>>◌, pure, crash, unwrap_option, unwrap, ignore,
}
use rstr.Meta.Types.{MetaIndexEntry}
use rstr.Message.{BinaryMessage}
use rstr.Gui.Types.{ProcessingEvent, MetaFile}
use rstr.Client.Types.{
  Platform, ClientHandlerError, EventMessage, process_message, send_message, upload_meta,
  upload_multiple_meta, log_in_as_receiver, log_in_as_sender, logged_in_as_receiver,
  logged_in_as_sender, update_receiver_files, update_sender_files, meta_creation_error,
  meta_progress_report, meta_created, sender_connected, sender_disconnected, file_requested,
  file_resumed, download_stopped, file_part_io_error, file_started_downloading,
  file_download_progress, file_finished_downloading, transfer_started, transfer_finished,
  transfer_stopped, quit,
}
use rstr.Client.Receiver
use rstr.Client.Receiver.{Receiver, request_new_meta, request_file, resume_file, stop_transmition}
use rstr.Client.Chunks
use rstr.Client.Sender
use rstr.Client.Sender.{Sender, on_meta_created, publish}
use rstr.App.Paths.{path_file_name, to_str}
use rstr.App.State.{
  Codec, Opened, refused, without_metadata, opened, Break, one, several, ClientType, AppStep,
  put_receiver, put_sender, for_receiver, for_sender, show, write, spawn,
}

-- `format!("File `{}` cannot be opened", …)`
abbrev pub cannot_be_opened : Text → Text
cannot_be_opened path = ascii "File `" ++ (path ++ ascii "` cannot be opened")

abbrev pub receiver_key : Text
receiver_key = ascii "h87s8ghegh48ghs4gs84hg8s4h8"

abbrev pub sender_key : Text
sender_key = ascii "vn753498573q0v5983n5789qyunasp8fy3j"

module _ (P : Platform) where
  unfoldable pub logged_receiver :
      Outcome ClientHandlerError (Unit {0}) × Receiver P → AppStep P (Unit {0})
  unfolding put_receiver
  logged_receiver (ok u, r) app = (ok tt, put_receiver P r app)
  logged_receiver (err e, r) app = (err Break.quit, app)
  logged_receiver (panic, r) app = (panic, app)

  unfoldable pub logged_sender :
      Outcome ClientHandlerError (Unit {0}) × Sender P → AppStep P (Unit {0})
  unfolding put_sender
  logged_sender (ok u, s) app = (ok tt, put_sender P s app)
  logged_sender (err e, s) app = (err Break.quit, app)
  logged_sender (panic, s) app = (panic, app)

  unfoldable pub start_receiver : AppStep P (Unit {0})
  unfolding logged_receiver
  start_receiver app = elim (Receiver.new P app.receiver_dir app.files) [
    | none ↦ (panic, app)
    | some r ↦ logged_receiver (Receiver.log_in P (ascii "receiver") receiver_key r) app
  ]

  unfoldable pub start_sender : AppStep P (Unit {0})
  unfolding logged_sender
  start_sender app = elim (Sender.new P app.sender_dir) [
    | none ↦ (panic, app)
    | some s ↦ logged_sender (Sender.log_in P (ascii "sender") sender_key s) app
  ]

  -- `bincode::encode_to_vec` and `write.send`; an encoding that fails is printed.
  unfoldable pub send_encoded : Option (List ℕ) → AppStep P (Unit {0})
  unfolding write
  send_encoded none = pure tt
  send_encoded (some encoded) = write P encoded

  -- The `client` is asked for its kind first, and the printed error comes after.
  unfoldable pub process : BinaryMessage → AppStep P (Unit {0})
  process binary_message app = elim app.client [
    | ClientType.none ↦ (ok tt, app)
    | ClientType.receiver r ↦
        ignore (for_receiver P (Chunks.process_message P binary_message.payload)) app
    | ClientType.sender s ↦
        ignore (for_sender P (Sender.process_message P binary_message.payload)) app
  ]

  unfoldable pub failed : Text → AppStep P (Unit {0})
  unfolding to_str show
  failed local_path = do
    path ← unwrap_option (to_str local_path)
    show P (ProcessingEvent.metadata_creation_failed (cannot_be_opened path))

  -- `local_path.file_name().unwrap().to_str().unwrap()`
  unfoldable pub name_of : Text → AppStep P Text
  unfolding path_file_name to_str
  name_of local_path = do
    name ← unwrap_option (path_file_name local_path)
    unwrap_option (to_str name)

  unfoldable pub upload_opened : Text → Text → Opened → AppStep P (Unit {0})
  unfolding failed name_of spawn show
  upload_opened local_path remote_path refused = failed local_path
  upload_opened local_path remote_path without_metadata = crash
  upload_opened local_path remote_path (opened size) = do
    name ← name_of local_path
    show P (
        ProcessingEvent.metadata_creation_started
          (record { name = name; formatted_size = P.format_size size }))
    spawn P (one local_path remote_path)

  unfoldable pub upload : Text → Text → AppStep P (Unit {0})
  unfolding upload_opened
  upload local_path remote_path app = elim app.client [
    | ClientType.none ↦ (ok tt, app)
    | ClientType.receiver r ↦ (ok tt, app)
    | ClientType.sender s ↦ upload_opened local_path remote_path (app.opens local_path) app
  ]

  unfoldable pub listed : Text → Text → List MetaFile → Opened → AppStep P (List MetaFile)
  unfolding failed
  listed local_path name meta_files refused = do failed local_path; pure meta_files
  listed local_path name meta_files without_metadata = crash
  listed local_path name meta_files (opened size) =
      pure (meta_files ++ record { name = name; formatted_size = P.format_size size } ∷ [])

  -- The loop over the paths: those that cannot be opened are reported and left out of the list.
  unfoldable pub list_paths : List Text → List MetaFile → AppStep P (List MetaFile)
  unfolding listed name_of
  list_paths [] meta_files = pure meta_files
  list_paths (local_path ∷ local_paths) meta_files = do
    name ← name_of local_path
    more ← λ app. listed local_path name meta_files (app.opens local_path) app
    list_paths local_paths more

  unfoldable pub upload_multiple : Text → List Text → AppStep P (Unit {0})
  unfolding list_paths show spawn
  upload_multiple remote_dir local_paths app = elim app.client [
    | ClientType.none ↦ (ok tt, app)
    | ClientType.receiver r ↦ (ok tt, app)
    | ClientType.sender s ↦
        (do
          meta_files ← list_paths local_paths []
          show P (ProcessingEvent.multiple_metadata_creation_started meta_files)
          spawn P (several remote_dir local_paths))
          app
  ]

  unfoldable pub published : Outcome ClientHandlerError (Unit {0}) → AppStep P (Unit {0})
  unfolding show
  published (ok u) = show P ProcessingEvent.metadata_created
  published (err e) = pure tt
  published panic = crash

  unfoldable pub announce : MetaIndexEntry → AppStep P (Unit {0})
  unfolding for_sender published
  announce entry = do
    unwrap (for_sender P (on_meta_created P entry))
    λ app.
        published (for_sender P (publish P entry.meta.path) app).0
          (for_sender P (publish P entry.meta.path) app).1

  unfoldable pub meta_made : MetaIndexEntry → AppStep P (Unit {0})
  unfolding announce
  meta_made entry app = elim app.client [
    | ClientType.none ↦ (ok tt, app)
    | ClientType.receiver r ↦ (ok tt, app)
    | ClientType.sender s ↦ announce entry app
  ]

  module _ (C : Codec) where
    unfoldable pub handle : EventMessage P.floats.F32 → AppStep P (Unit {0})
    unfolding start_receiver start_sender send_encoded process upload upload_multiple meta_made show
        for_receiver
    handle log_in_as_receiver = start_receiver
    handle log_in_as_sender = start_sender
    handle (logged_in_as_receiver dirs files) = do
      show P (ProcessingEvent.logged_in_as_receiver dirs files)
      unwrap (for_receiver P (request_new_meta P))
    handle (logged_in_as_sender dirs files) =
        show P (ProcessingEvent.logged_in_as_sender dirs files)
    handle (send_message binary_message) = send_encoded (C.encode binary_message)
    handle (process_message binary_message) = process binary_message
    handle (upload_meta local_path remote_path) = upload local_path remote_path
    handle (upload_multiple_meta remote_dir local_paths) = upload_multiple remote_dir local_paths
    handle meta_creation_error = pure tt
    handle (meta_progress_report progress) =
        show P (ProcessingEvent.metadata_creation_progress progress)
    handle (meta_created entry) = meta_made entry
    handle (update_receiver_files dirs files) =
        show P (ProcessingEvent.update_receiver_files dirs files)
    handle (update_sender_files dirs files) =
        show P (ProcessingEvent.update_sender_files dirs files)
    handle sender_connected = show P ProcessingEvent.sender_connected
    handle sender_disconnected = show P ProcessingEvent.sender_disconnected
    handle (file_requested remote_path local_path) =
        unwrap (for_receiver P (request_file P remote_path local_path))
    handle (file_resumed remote_path) = unwrap (for_receiver P (resume_file P remote_path))
    handle download_stopped = unwrap (for_receiver P (stop_transmition P))
    handle file_part_io_error = show P ProcessingEvent.file_part_io_error
    handle (file_started_downloading remote_path file_name formatted_size total_size) =
        show P
          (ProcessingEvent.file_started_downloading remote_path file_name formatted_size total_size)
    handle (file_download_progress progress) =
        show P (ProcessingEvent.file_download_progress progress)
    handle (file_finished_downloading remote_path) =
        show P ProcessingEvent.file_finished_downloading
    handle (transfer_started file) = pure tt
    handle transfer_stopped = pure tt
    handle transfer_finished = pure tt
    handle quit = λ app. (err Break.quit, app)
