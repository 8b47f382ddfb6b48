-- ===== src/Client/Types.antt =====
-- The types of rstr_client/src/client.rs, the items that it shows (their types come from
-- rstr_client/ui/model.slint), and what it takes from other crates.
use rstr.Prelude.{ℕ, Bool, true, false, List}
use rstr.Prelude.Int.{ℤ}
use rstr.Prelude.Text.{Text}
use rstr.Meta.Types.{MetaIndexEntry}
use rstr.Meta.Hash.{Hasher, Floats}
use rstr.Meta.Storage.{Bincode}
use rstr.Message.{BinaryMessage}

-- The crates xxhash-rust, bincode, lexical-sort and size, and the floats.
pub record Platform : Type 1 where
  pub hasher : Hasher
  pub floats : Floats
  pub bincode : Bincode
  pub lexical_le : Text → Text → Bool
  pub format_size : ℕ → Text

pub data ClientHandlerError : Type 0 where
  not_supported wrong_state deserialization_error io_error : ClientHandlerError
  invalid_hash : ℕ → ℕ → ClientHandlerError
  file_not_found : Text → ClientHandlerError
  chunk_not_found file_is_downloaded file_not_requested : ClientHandlerError

pub record Directory : Type 0 where
  pub display_name : Text
  pub actual_name : Text

pub data ReceiverFileStatus : Type 0 where
  not_downloaded downloading downloaded : ReceiverFileStatus

-- Without the progress, which the listings set to 0.
pub record ReceiverFile : Type 0 where
  pub name : Text
  pub dir : Text
  pub status : ReceiverFileStatus
  pub remote_path : Text
  pub local_path : Text
  pub formatted_size : Text

pub record SenderFile : Type 0 where
  pub name : Text
  pub dir : Text
  pub remote_path : Text
  pub local_path : Text
  pub formatted_size : Text

pub record TransferingFile : Type 0 where
  pub file_name : Text
  pub chunk_index : ℤ
  pub total_chunks : ℤ

pub data EventMessage (F32 : Type 0) : Type 0 where
  process_message : BinaryMessage → EventMessage F32
  send_message : BinaryMessage → EventMessage F32
  upload_meta : Text → Text → EventMessage F32
  upload_multiple_meta : Text → List Text → EventMessage F32
  log_in_as_receiver log_in_as_sender : EventMessage F32
  logged_in_as_receiver : List Directory → List ReceiverFile → EventMessage F32
  logged_in_as_sender : List Directory → List SenderFile → EventMessage F32
  update_receiver_files : List Directory → List ReceiverFile → EventMessage F32
  update_sender_files : List Directory → List SenderFile → EventMessage F32
  meta_creation_error : EventMessage F32
  meta_progress_report : F32 → EventMessage F32
  meta_created : MetaIndexEntry → EventMessage F32
  sender_connected sender_disconnected : EventMessage F32
  file_requested : Text → Text → EventMessage F32
  file_resumed : Text → EventMessage F32
  download_stopped file_part_io_error : EventMessage F32
  file_started_downloading : Text → Text → Text → ℕ → EventMessage F32
  file_download_progress : F32 → EventMessage F32
  file_finished_downloading : Text → EventMessage F32
  transfer_started : TransferingFile → EventMessage F32
  transfer_finished transfer_stopped quit : EventMessage F32

pub data ReceiverState : Type 0 where
  initializing idle receiving_meta requested_chunk : ReceiverState

abbrev pub state_eq : ReceiverState → ReceiverState → Bool
state_eq initializing initializing = true
state_eq idle idle = true
state_eq receiving_meta receiving_meta = true
state_eq requested_chunk requested_chunk = true
state_eq _ _ = false

pub data SenderState : Type 0 where
  initializing idle : SenderState
