-- ===== src/Gui/Screen.antt =====
-- The properties of `AppWindow` that rstr_client/src/gui.rs sets, and the functions of
-- rstr_client/ui/app-window.slint, sender-screen.slint and receiver-screen.slint that it calls.
use rstr.Prelude.{
  ℕ, suc, Bool, true, false, Option, none, some, List, [], length, ltb, get_elem?, if◌then◌else◌,
}
use rstr.Prelude.Text.{Text}
use rstr.Client.Types.{Directory, ReceiverFile, SenderFile}
use rstr.Gui.Types.{ConnectionStatus, disconnected, MetaFile, DownloadingFile}

pub data Screen : Type 0 where
  main_screen receiver_screen sender_screen : Screen

-- `DownloadingFile::default()` and `{}` for a `MetaFile`
abbrev pub no_file : DownloadingFile
no_file = record { remote_path = []; file_name = []; formatted_size = [] }

abbrev pub no_metafile : MetaFile
no_metafile = record { name = []; formatted_size = [] }

-- `files[i]`, which is the default value out of range.
abbrev pub metafile_at : List MetaFile → ℕ → MetaFile
metafile_at files i = elim (get_elem? files i) [ none ↦ no_metafile | some file ↦ file ]

module _ (F32 : Type 0) where
  -- A filter is the directory that is compared with, or none. `metafile_index` is -1 as `none`.
  pub record Window : Type 0 where
    pub connection_status : ConnectionStatus
    pub sender_connected : Bool
    pub current_screen : Screen
    pub directories : List Directory
    pub receiver_files : List ReceiverFile
    pub receiver_filter : Option Text
    pub sender_files : List SenderFile
    pub sender_filter : Option Text
    pub metadata_creation_error : Text
    pub creating_metafile : MetaFile
    pub creating_meta_progress : F32
    pub queued_metafiles : List MetaFile
    pub metafile_index : Option ℕ
    pub downloading_file : DownloadingFile
    pub downloading_progress : F32

  module _ (zero_f32 : F32) where
    -- The window as `process_gui_event` finds it, with its own models set.
    unfoldable pub start : Window
    start = record {
      connection_status = disconnected;
      sender_connected = false;
      current_screen = main_screen;
      directories = [];
      receiver_files = [];
      receiver_filter = none;
      sender_files = [];
      sender_filter = none;
      metadata_creation_error = [];
      creating_metafile = no_metafile;
      creating_meta_progress = zero_f32;
      queued_metafiles = [];
      metafile_index = none;
      downloading_file = no_file;
      downloading_progress = zero_f32;
    }

    unfoldable pub set_metadata_creation_error : Text → Window → Window
    set_metadata_creation_error error w = record w {
      metadata_creation_error = error;
      creating_meta_progress = zero_f32;
      creating_metafile = no_metafile;
    }

    unfoldable pub metadata_creation_started : MetaFile → Window → Window
    metadata_creation_started file w = record w {
      creating_metafile = file;
      creating_meta_progress = zero_f32;
    }

    unfoldable pub multiple_metadata_creation_started : List MetaFile → Window → Window
    multiple_metadata_creation_started files w = record w {
      queued_metafiles = files;
      metafile_index = some 0;
      creating_metafile = metafile_at files 0;
      creating_meta_progress = zero_f32;
    }

    -- At the index -1 the next one is 0.
    abbrev pub next_index : Option ℕ → ℕ
    next_index none = 0
    next_index (some i) = suc i

    abbrev pub is_queued : Option ℕ → ℕ → Bool
    is_queued none n = true
    is_queued (some i) n = ltb i n

    unfoldable pub metadata_created : Window → Window
    metadata_created w =
        if is_queued w.metafile_index (length w.queued_metafiles)
        then record w {
          creating_meta_progress = zero_f32;
          metafile_index = some (next_index w.metafile_index);
          creating_metafile = metafile_at w.queued_metafiles (next_index w.metafile_index);
        }
        else record w {
          creating_meta_progress = zero_f32;
          metafile_index = none;
          creating_metafile = no_metafile;
          queued_metafiles = [];
        }

    unfoldable pub set_downloading_file : DownloadingFile → Window → Window
    set_downloading_file file w = record w {
      downloading_file = file;
      downloading_progress = zero_f32;
    }
