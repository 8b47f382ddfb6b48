-- ===== src/Gui/Types.antt =====
-- `ProcessingEvent` of rstr_client/src/gui.rs, and the types that it takes from
-- rstr_client/ui/model.slint and rstr_client/ui/common.slint.
use rstr.Prelude.{ℕ, List}
use rstr.Prelude.Text.{Text}
use rstr.Client.Types.{Directory, ReceiverFile, SenderFile}

pub data ConnectionStatus : Type 0 where
  connecting connected disconnected : ConnectionStatus

pub record MetaFile : Type 0 where
  pub name : Text
  pub formatted_size : Text

pub record DownloadingFile : Type 0 where
  pub remote_path : Text
  pub file_name : Text
  pub formatted_size : Text

pub data ProcessingEvent (F32 : Type 0) : Type 0 where
  connection_status_changed : ConnectionStatus → ProcessingEvent F32
  logged_in_as_receiver : List Directory → List ReceiverFile → ProcessingEvent F32
  logged_in_as_sender : List Directory → List SenderFile → ProcessingEvent F32
  multiple_metadata_creation_started : List MetaFile → ProcessingEvent F32
  metadata_creation_started : MetaFile → ProcessingEvent F32
  metadata_creation_failed : Text → ProcessingEvent F32
  metadata_creation_progress : F32 → ProcessingEvent F32
  metadata_created : ProcessingEvent F32
  update_receiver_files : List Directory → List ReceiverFile → ProcessingEvent F32
  update_sender_files : List Directory → List SenderFile → ProcessingEvent F32
  receiver_directory_changed : Text → ProcessingEvent F32
  sender_directory_changed : Text → ProcessingEvent F32
  sender_connected sender_disconnected file_part_io_error : ProcessingEvent F32
  file_started_downloading : Text → Text → Text → ℕ → ProcessingEvent F32
  file_download_progress : F32 → ProcessingEvent F32
  file_finished_downloading : ProcessingEvent F32
