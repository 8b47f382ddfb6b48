-- ===== src/App/Faults.antt =====
-- What ends the client program of rstr_client/src/main.rs and rstr_client/src/gui.rs by a panic: the
-- errors of what the user asks for are unwrapped.
use rstr.Prelude.{◌≡◌, refl, false}
use rstr.Prelude.Text.{Text}
use rstr.Prelude.Exec.{panic}
use rstr.Client.Types.{Platform, state_eq, requested_chunk, download_stopped}
use rstr.Client.Receiver.{Receiver, check_state, stop_transmition}
use rstr.App.State.{Codec, ClientType, App, for_receiver}
use rstr.App.Dispatch.{handle}

module _ (P : Platform) (C : Codec) (app : App P) (r : Receiver P)
    (receiving : app.client ≡ ClientType.receiver r) where
  -- The same comes of a stop where nothing is downloaded.
  pub stop_panics :
      state_eq r.state requested_chunk ≡ false → (handle P C download_stopped app).0 ≡ panic
  unfolding handle for_receiver stop_transmition check_state
  stop_panics resting = rw receiving (rw resting refl)
