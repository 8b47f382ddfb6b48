-- ===== src/Gui/Callbacks.antt =====
-- `setup_ui` of rstr_client/src/gui.rs: what each callback of the windows does. A callback that sends
-- spawns a task for it, which runs after the callback; the send is unwrapped, so it panics where the event loop is gone.
use rstr.Prelude.{Bool, true, false, Option, none, some, List, [], ◌∷◌, ◌++◌, if◌then◌else◌}
use rstr.Prelude.Text.{Text}
use rstr.Prelude.Exec.{Exec, ok, panic, ◌>>=◌, ◌>>◌, modify, unwrap_option}
use rstr.Gui.Types.{ProcessingEvent, receiver_directory_changed, sender_directory_changed}
use rstr.Client.Types.{
  EventMessage, log_in_as_receiver, log_in_as_sender, file_requested, file_resumed,
  download_stopped, upload_meta, upload_multiple_meta,
}
use rstr.App.Paths.{path_file_name, to_str}

-- A callback with its arguments; where it opens a dialog of the system, with what was chosen there.
pub data Click : Type 0 where
  pressed_receiver pressed_sender author_clicked : Click
  sender_dir_changed receiver_dir_changed : Text → Click
  download : (remote_path remote_name : Text) → (chosen : Option Text) → Click
  resume : Text → Click
  stop_downloading upload_clicked upload_multiple_clicked cancel_clicked : Click
  ok_clicked : (local_path remote_path : Text) → Click
  browse_clicked : Option Text → Click
  add_files_clicked : Option (List Text) → Click
  multiple_cancel_clicked : Click
  multiple_ok_clicked : (remote_dir : Text) → Click

module _ (F32 : Type 0) where
  -- The dialogs, and what was put into the channels of the event loop and of the window.
  pub record Ui : Type 0 where
    pub meta_dialog : Bool
    pub local_path : Option (Text × Text)
    pub meta_multiple_dialog : Bool
    pub multiple_meta_paths : List Text
    pub events : List (EventMessage F32)
    pub event_loop_runs : Bool
    pub processing : List (ProcessingEvent F32)

  -- The callbacks return no errors.
  abbrev pub Callback : Type 0
  Callback = Exec (Unit {0}) Ui (Unit {0})

  unfoldable pub post : EventMessage F32 → Callback
  post event ui =
      if ui.event_loop_runs
      then (ok tt, record ui { events = ui.events ++ event ∷ [] })
      else (panic, ui)

  -- The window's own channel stays open as long as the window.
  unfoldable pub post_processing : ProcessingEvent F32 → Callback
  post_processing event ui = (ok tt, record ui { processing = ui.processing ++ event ∷ [] })

  -- `local_paths.iter().map(|p| p.to_str().unwrap().into())`
  unfoldable pub all_to_str : List Text → Option (List Text)
  unfolding to_str
  all_to_str [] = some []
  all_to_str (path ∷ paths) =
      let rest = all_to_str paths in
      elim (to_str path) [
        | none ↦ none
        | some p ↦ elim rest [ none ↦ none | some ps ↦ some (p ∷ ps) ]
      ]

  unfoldable pub on_click : Click → Callback
  unfolding post post_processing all_to_str path_file_name to_str
  on_click pressed_receiver = post log_in_as_receiver
  on_click pressed_sender = post log_in_as_sender
  on_click author_clicked = λ ui. (ok tt, ui)
  on_click (sender_dir_changed dir) = post_processing (sender_directory_changed dir)
  on_click (receiver_dir_changed dir) = post_processing (receiver_directory_changed dir)
  on_click (download remote_path remote_name none) = λ ui. (ok tt, ui)
  on_click (download remote_path remote_name (some local_path)) =
      post (file_requested remote_path local_path)
  on_click (resume remote_path) = post (file_resumed remote_path)
  on_click stop_downloading = post download_stopped
  on_click upload_clicked = modify (λ ui. record ui { meta_dialog = true })
  on_click upload_multiple_clicked = modify (λ ui. record ui { meta_multiple_dialog = true })
  on_click cancel_clicked = modify (λ ui. record ui { meta_dialog = false })
  on_click (ok_clicked local_path remote_path) = do
    modify (λ ui. record ui { meta_dialog = false })
    post (upload_meta local_path remote_path)
  on_click (browse_clicked none) = λ ui. (ok tt, ui)
  on_click (browse_clicked (some local_path)) = do
    name ← unwrap_option (path_file_name local_path)
    file_name ← unwrap_option (to_str name)
    path ← unwrap_option (to_str local_path)
    modify (λ ui. record ui { local_path = some (path, file_name) })
  on_click (add_files_clicked none) = λ ui. (ok tt, ui)
  on_click (add_files_clicked (some local_paths)) = do
    paths ← unwrap_option (all_to_str local_paths)
    modify (λ ui. record ui { multiple_meta_paths = paths })
  on_click multiple_cancel_clicked =
      modify (λ ui. record ui { meta_multiple_dialog = false; multiple_meta_paths = [] })
  on_click (multiple_ok_clicked remote_dir) = λ ui.
      (modify (λ ui. record ui { meta_multiple_dialog = false; multiple_meta_paths = [] })
          >> post (upload_multiple_meta remote_dir ui.multiple_meta_paths))
        ui
