-- ===== src/App/Loop.antt =====
-- The loops of `logic` in rstr_client/src/main.rs: connecting, reading the socket, and taking events
-- from the channel. The channel holds 16 * 1024 * 1024 events, which the model does not count.
use rstr.Prelude.{ℕ, zero, suc, Bool, true, false, Option, none, some, List, [], ◌∷◌}
use rstr.Prelude.Text.{Text, ascii}
use rstr.Prelude.Exec.{ok, ◌>>◌}
use rstr.Gui.Types.{
  ProcessingEvent, connection_status_changed, ConnectionStatus, connecting, connected, disconnected,
}
use rstr.Client.Types.{Platform, EventMessage, process_message}
use rstr.App.State.{Codec, AppStep}
use rstr.App.Dispatch.{handle}

pub data HandlerError : Type 0 where
  tungstenite_error decode_error connection_interrupted : HandlerError

-- What `read.next()` yields: the data of a message, or an error; the list ends with the stream.
pub data Incoming : Type 0 where
  message_data : List ℕ → Incoming
  failure : Incoming

-- `args.next()` after the program's name.
unfoldable pub url : Option Text → Text
url none = ascii "ws://127.0.0.1:37065"
url (some host) = host

module _ (P : Platform) where
  abbrev pub status : ConnectionStatus → ProcessingEvent P.floats.F32
  status s = connection_status_changed s

  -- The loop around `connect_async`: what the window is told, and whether a connection was made by
  -- the last of these attempts.
  unfoldable pub connect : List Bool → List (ProcessingEvent P.floats.F32) × Bool
  connect [] = ([], false)
  connect (attempt ∷ attempts) =
      let later = connect attempts in
      elim attempt [
        | true ↦ (status connecting ∷ status connected ∷ [], true)
        | false ↦ (status connecting ∷ status disconnected ∷ later.0, later.1)
      ]

  module _ (C : Codec) where
    read_decoded :
        Option (EventMessage P.floats.F32)
        → List (EventMessage P.floats.F32) × HandlerError
        → List (EventMessage P.floats.F32) × HandlerError
    read_decoded none later = ([], decode_error)
    read_decoded (some event) later = (event ∷ later.0, later.1)

    decoded_event : List ℕ → Option (EventMessage P.floats.F32)
    decoded_event bytes = elim (C.decode bytes) [
      | none ↦ none
      | some binary_message ↦ some (process_message binary_message)
    ]

    -- `read_task`: what it puts into the channel, and the error that ends it.
    unfoldable pub read_task : List Incoming → List (EventMessage P.floats.F32) × HandlerError
    unfolding read_decoded decoded_event
    read_task [] = ([], connection_interrupted)
    read_task (failure ∷ incoming) = ([], tungstenite_error)
    read_task (message_data bytes ∷ incoming) =
        read_decoded (decoded_event bytes) (read_task incoming)

    -- At most `rounds` of the loop of `event_processor_task`: it has then handled as many events,
    -- or waits at an empty channel, or has left the loop.
    unfoldable pub event_loop : ℕ → AppStep P (Unit {0})
    unfolding handle
    event_loop zero app = (ok tt, app)
    event_loop (suc rounds) app = elim app.events [
      | [] ↦ (ok tt, app)
      | event ∷ rest ↦ (handle P C event >> event_loop rounds) (record app { events = rest })
    ]
