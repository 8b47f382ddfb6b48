-- ===== src/Gui/Shown.antt =====
-- What the window of rstr_client/src/gui.rs shows after any events, against a description of it that
-- looks at the events alone.
use rstr.Prelude.{Option, some, List, [], ◌∷◌}
use rstr.Prelude.Text.{Text}
use rstr.Client.Types.{ReceiverFile, SenderFile}
use rstr.Gui.Types.{
  ProcessingEvent, logged_in_as_receiver, logged_in_as_sender, update_receiver_files,
  update_sender_files, receiver_directory_changed, sender_directory_changed,
  file_started_downloading, file_finished_downloading, DownloadingFile,
}
use rstr.Gui.Screen
use rstr.Gui.Screen.{Window, set_metadata_creation_error, set_downloading_file}

module _ {F32 : Type 0} where
  -- What is in place after the events, where `a` was before them.
  abbrev latest_receiver_files : List ReceiverFile → List (ProcessingEvent F32) → List ReceiverFile
  latest_receiver_files a [] = a
  latest_receiver_files a (logged_in_as_receiver dirs files ∷ events) =
      latest_receiver_files files events
  latest_receiver_files a (update_receiver_files dirs files ∷ events) =
      latest_receiver_files files events
  latest_receiver_files a (_ ∷ events) = latest_receiver_files a events

  abbrev latest_receiver_dir : Option Text → List (ProcessingEvent F32) → Option Text
  latest_receiver_dir a [] = a
  latest_receiver_dir a (receiver_directory_changed dir ∷ events) =
      latest_receiver_dir (some dir) events
  latest_receiver_dir a (_ ∷ events) = latest_receiver_dir a events

  abbrev latest_sender_files : List SenderFile → List (ProcessingEvent F32) → List SenderFile
  latest_sender_files a [] = a
  latest_sender_files a (logged_in_as_sender dirs files ∷ events) = latest_sender_files files events
  latest_sender_files a (update_sender_files dirs files ∷ events) = latest_sender_files files events
  latest_sender_files a (_ ∷ events) = latest_sender_files a events

  abbrev latest_sender_dir : Option Text → List (ProcessingEvent F32) → Option Text
  latest_sender_dir a [] = a
  latest_sender_dir a (sender_directory_changed dir ∷ events) = latest_sender_dir (some dir) events
  latest_sender_dir a (_ ∷ events) = latest_sender_dir a events

  -- The file whose download has started and has not finished.
  abbrev latest_download : DownloadingFile → List (ProcessingEvent F32) → DownloadingFile
  latest_download a [] = a
  latest_download a (file_started_downloading remote_path file_name formatted_size size ∷ events) =
      latest_download
        (record {
          remote_path = remote_path;
          file_name = file_name;
          formatted_size = formatted_size;
        })
        events
  latest_download a (file_finished_downloading ∷ events) = latest_download Screen.no_file events
  latest_download a (_ ∷ events) = latest_download a events
