-- ===== src/App/Examples.antt =====
-- The theorems on the client program of rstr_client/src/main.rs, at concrete states.
use rstr.Prelude.{◌≡◌, refl, [], ◌∷◌, ◌++◌, map, arith}
use rstr.Prelude.Text.{text_eq}
use rstr.Prelude.Exec.{ok}
use rstr.Meta.Index.{find_entry, change_local, relocate}
use rstr.Meta.Storage.{save}
use rstr.Message.{message, stop_chunk}
use rstr.Gui.Types.{ProcessingEvent}
use rstr.Gui.Callbacks.{Click, on_click}
use rstr.Client.Types.{log_in_as_receiver, send_message, process_message}
use rstr.Client.Receiver.{Receiver, RequestingFile}
use rstr.Client.Paths.{file_name}
use rstr.Client.Receiving.{Downloading}
use rstr.Client.Samples.{example_platform, path_a, entry_with, resting, first_chunk}
use rstr.App.State.{ClientType}
use rstr.App.Dispatch.{handle}
use rstr.App.Loop.{event_loop, read_task, message_data, connection_interrupted}
use rstr.App.Draining.{event_loop_drains}
use rstr.App.Program.{Program, after_click, clicked_ui, clicked, handled, here, next}
use rstr.App.Reaching.{IsSound, Reach-IsSound}
use rstr.App.Wire.{read_task-event_loop}
use rstr.App.Requesting.{Asked, event_loop-file_requested, after}
use rstr.App.Samples.{example_codec, new_disk-HoldsValid, app_with, asking, program_with}

asking-Asked :
    Asked example_platform example_codec asking
      (resting (entry_with (0 ∷ [])))
      path_a
      (99 ∷ [])
      (entry_with (0 ∷ []))
      first_chunk
      (0x5353454D ∷ 0 ∷ 6 ∷ path_a)
unfolding find_entry text_eq save change_local
asking-Asked = record {
  receiving = refl;
  asked = refl;
  window_open = refl;
  socket_open = refl;
  is_idle = refl;
  running = refl;
  found = refl;
  saved = refl;
  there = refl;
  room = omega arith;
  small = omega arith;
  writable = refl;
  encoded = refl;
}

abbrev asking_after : Receiver example_platform
asking_after =
    after example_platform example_codec asking (resting (entry_with (0 ∷ []))) path_a (99 ∷ [])
      (entry_with (0 ∷ [])) first_chunk (0x5353454D ∷ 0 ∷ 6 ∷ path_a) asking-Asked

event_loop-file_requested_example :
    (q : RequestingFile example_platform) × ((event_loop example_platform example_codec 3 asking).0
      ≡ ok tt)
    × ((event_loop example_platform example_codec 3 asking).1.events ≡ [])
    × ((event_loop example_platform example_codec 3 asking).1.written
        ≡ [] ++ (0x5353454D ∷ 0 ∷ 6 ∷ path_a) ∷ [])
    × ((event_loop example_platform example_codec 3 asking).1.window
        ≡ [] ++ ProcessingEvent.file_started_downloading path_a (file_name path_a) [] 5 ∷ [])
    × ((event_loop example_platform example_codec 3 asking).1.client
        ≡ ClientType.receiver asking_after)
    × Downloading example_platform asking_after
        (relocate (99 ∷ []) (entry_with (0 ∷ [])))
        first_chunk
        q
        []
event_loop-file_requested_example =
    event_loop-file_requested example_platform example_codec asking (resting (entry_with (0 ∷ [])))
      path_a (99 ∷ []) (entry_with (0 ∷ [])) first_chunk (0x5353454D ∷ 0 ∷ 6 ∷ path_a) asking-Asked

event_loop_drains_example : (event_loop example_platform example_codec 3 asking).1.events ≡ []
event_loop_drains_example =
    event_loop_drains example_platform example_codec 3 asking (omega arith)
      (event_loop-file_requested example_platform example_codec asking
        (resting (entry_with (0 ∷ []))) path_a (99 ∷ []) (entry_with (0 ∷ [])) first_chunk
        (0x5353454D ∷ 0 ∷ 6 ∷ path_a) asking-Asked).1

read_task-event_loop_example :
    read_task example_platform example_codec (
      map message_data
        (event_loop example_platform example_codec 2 (
          app_with ClientType.none (
            send_message (message stop_chunk) ∷ send_message (message stop_chunk) ∷ []))).1.written)
    ≡ (
      process_message (message stop_chunk) ∷ process_message (message stop_chunk) ∷ [],
      connection_interrupted,
    )
read_task-event_loop_example =
    read_task-event_loop example_platform example_codec
      (message stop_chunk ∷ message stop_chunk ∷ []) ((0x5353454D ∷ []) ∷ (0x5353454D ∷ []) ∷ [])
      (app_with ClientType.none
        (send_message (message stop_chunk) ∷ send_message (message stop_chunk) ∷ []))
      (refl, (refl, tt)) refl refl refl

abbrev unopened : Program example_platform example_codec
unopened = program_with (app_with ClientType.none [])

unopened-IsSound : IsSound example_platform example_codec refl unopened
unopened-IsSound = record { indices = (tt, new_disk-HoldsValid, new_disk-HoldsValid); fresh = tt }

-- The user has chosen to be the receiver.
abbrev chosen : Program example_platform example_codec
chosen =
    after_click example_platform example_codec
      (clicked_ui example_platform example_codec Click.pressed_receiver unopened) unopened

abbrev logging_in : Program example_platform example_codec
logging_in = record chosen {
  app =
      (handle example_platform example_codec log_in_as_receiver
        (record chosen.app { events = [] })).1;
}

Reach-IsSound_example : IsSound example_platform example_codec refl logging_in
unfolding on_click
Reach-IsSound_example =
    Reach-IsSound example_platform example_codec refl
      (next (next here (clicked Click.pressed_receiver unopened))
        (handled log_in_as_receiver [] chosen refl))
      unopened-IsSound
