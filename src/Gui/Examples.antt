-- ===== src/Gui/Examples.antt =====
-- The window of rstr_client/src/gui.rs on concrete events.
use rstr.Prelude.{ℕ, ◌≡◌, refl, List, [], ◌∷◌}
use rstr.Prelude.Text.{Text, ascii, text_eq}
use rstr.Client.Types.{ReceiverFile, ReceiverFileStatus}
use rstr.Gui.Types.{
  ProcessingEvent, update_receiver_files, receiver_directory_changed, metadata_created,
  multiple_metadata_creation_started,
}
use rstr.Gui.Screen.{start, no_metafile}
use rstr.Gui.Window.{shown_receiver_files, process_gui_event}
use rstr.Gui.Screen

abbrev file_in : Text → Text → ReceiverFile
file_in dir name = record {
  name = name;
  dir = dir;
  status = ReceiverFileStatus.not_downloaded;
  remote_path = name;
  local_path = [];
  formatted_size = [];
}

abbrev two_files : List ReceiverFile
two_files = file_in (ascii "x") (ascii "a") ∷ file_in [] (ascii "b") ∷ []

-- A directory that was chosen stays chosen when new files come.
abbrev browsing : List (ProcessingEvent ℕ)
browsing =
    update_receiver_files [] []
    ∷ receiver_directory_changed (ascii "x")
    ∷ update_receiver_files [] two_files
    ∷ []

browsing_test :
    shown_receiver_files (process_gui_event 0 browsing (start ℕ 0))
    ≡ file_in (ascii "x") (ascii "a") ∷ []
unfolding process_gui_event start shown_receiver_files text_eq
browsing_test = refl

-- Two files are made one after the other; after the second one the list is at its end.
making_test :
    (process_gui_event 0
      (multiple_metadata_creation_started (
          record { name = ascii "a"; formatted_size = [] }
          ∷ record { name = ascii "b"; formatted_size = [] }
          ∷ [])
        ∷ metadata_created
        ∷ metadata_created
        ∷ [])
      (start ℕ 0)).creating_metafile
    ≡ no_metafile
unfolding process_gui_event start
making_test = refl
