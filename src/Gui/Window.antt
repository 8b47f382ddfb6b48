-- ===== src/Gui/Window.antt =====
-- `process_gui_event` of rstr_client/src/gui.rs.
use rstr.Prelude.{Bool, true, false, Option, none, some, List, [], ◌∷◌, if◌then◌else◌}
use rstr.Prelude.Text.{Text, text_eq}
use rstr.Client.Types.{ReceiverFile, SenderFile}
use rstr.Gui.Types.{
  ProcessingEvent, connection_status_changed, logged_in_as_receiver, logged_in_as_sender,
  multiple_metadata_creation_started, metadata_creation_started, metadata_creation_failed,
  metadata_creation_progress, metadata_created, update_receiver_files, update_sender_files,
  receiver_directory_changed, sender_directory_changed, sender_connected, sender_disconnected,
  file_part_io_error, file_started_downloading, file_download_progress, file_finished_downloading,
}
use rstr.Gui.Screen
use rstr.Gui.Screen.{
  Window, receiver_screen, sender_screen, no_file, start, set_metadata_creation_error,
  set_downloading_file,
}

-- A `FilterModel` over the files: it follows them when they are replaced.
unfoldable pub filtered : {A : Type 0} → (A → Bool) → List A → List A
filtered keep [] = []
filtered keep (f ∷ files) = let rest = filtered keep files in if keep f then f ∷ rest else rest

abbrev pub in_dir : Option Text → Text → Bool
in_dir none dir = true
in_dir (some d) dir = text_eq dir d

-- What the window shows: the models that were last given to it.
unfoldable pub shown_receiver_files : {F32 : Type 0} → Window F32 → List ReceiverFile
unfolding filtered
shown_receiver_files w = filtered (λ f. in_dir w.receiver_filter f.dir) w.receiver_files

unfoldable pub shown_sender_files : {F32 : Type 0} → Window F32 → List SenderFile
unfolding filtered
shown_sender_files w = filtered (λ f. in_dir w.sender_filter f.dir) w.sender_files

module _ {F32 : Type 0} (zero_f32 : F32) where
  -- The `match` of the loop.
  unfoldable pub process_event : ProcessingEvent F32 → Window F32 → Window F32
  unfolding set_metadata_creation_error Screen.metadata_creation_started
      Screen.multiple_metadata_creation_started Screen.metadata_created set_downloading_file
  process_event (connection_status_changed status) w = record w { connection_status = status }
  process_event (logged_in_as_receiver dirs files) w = record w {
    directories = dirs;
    receiver_files = files;
    current_screen = receiver_screen;
  }
  process_event (logged_in_as_sender dirs files) w = record w {
    directories = dirs;
    sender_files = files;
    current_screen = sender_screen;
  }
  process_event (metadata_creation_started file) w =
      Screen.metadata_creation_started F32 zero_f32 file w
  process_event (multiple_metadata_creation_started files) w =
      Screen.multiple_metadata_creation_started F32 zero_f32 files w
  process_event (metadata_creation_failed error) w =
      set_metadata_creation_error F32 zero_f32 error w
  process_event (metadata_creation_progress progress) w = record w {
    creating_meta_progress = progress;
  }
  process_event metadata_created w = Screen.metadata_created F32 zero_f32 w
  process_event (update_receiver_files dirs files) w = record w {
    directories = dirs;
    receiver_files = files;
  }
  process_event (update_sender_files dirs files) w = record w {
    directories = dirs;
    sender_files = files;
  }
  process_event (receiver_directory_changed dir) w = record w { receiver_filter = some dir }
  process_event (sender_directory_changed dir) w = record w { sender_filter = some dir }
  process_event sender_connected w = record w { sender_connected = true }
  process_event sender_disconnected w = record w { sender_connected = false }
  process_event file_part_io_error w = w
  process_event (file_started_downloading remote_path file_name formatted_size total_size) w =
      set_downloading_file F32 zero_f32
        (record {
          remote_path = remote_path;
          file_name = file_name;
          formatted_size = formatted_size;
        })
        w
  process_event (file_download_progress progress) w = record w { downloading_progress = progress }
  process_event file_finished_downloading w = set_downloading_file F32 zero_f32 no_file w

  -- The loop, over what the channel delivers until its other ends are gone.
  unfoldable pub process_gui_event : List (ProcessingEvent F32) → Window F32 → Window F32
  unfolding process_event
  process_gui_event [] w = w
  process_gui_event (event ∷ events) w = process_gui_event events (process_event event w)
