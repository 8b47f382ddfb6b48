-- ===== src/App/State.antt =====
-- The state of `event_processor_task` in rstr_client/src/main.rs: the client that it runs, and both
-- ends of what it talks to, which are the channel of its own events, the window, the socket, the
-- tasks that it has spawned, the local files and the two data directories.
use rstr.Prelude.{
  ℕ, ◌≡◌, refl, ◌⊎◌, inl, inr, Bool, Option, some, List, [], ◌∷◌, ◌++◌, if◌then◌else◌,
}
use rstr.Prelude.Text.{Text}
use rstr.Prelude.Exec.{Exec, Outcome, ok, panic}
use rstr.Meta.Storage.{Disk}
use rstr.Message.{BinaryMessage}
use rstr.Gui.Types.{ProcessingEvent}
use rstr.Client.Types.{Platform, ClientHandlerError, EventMessage}
use rstr.Client.Receiver.{Files, Receiver, Step}
use rstr.Client.Sender.{Sender, SenderStep}

-- The crate bincode on the messages: what was encoded decodes to the same value.
pub record Codec : Type 0 where
  pub encode : BinaryMessage → Option (List ℕ)
  pub decode : List ℕ → Option BinaryMessage
  pub decode-encode :
      (message : BinaryMessage) (bytes : List ℕ)
      → encode message ≡ some bytes
      → decode bytes ≡ some message

-- What `File::open` and `metadata()` say of a path: the length, if both succeed.
pub data Opened : Type 0 where
  refused without_metadata : Opened
  opened : ℕ → Opened

-- `break` out of the loop.
pub data Break : Type 0 where
  quit : Break

-- A task that `create_meta` or `create_multiple_meta` has spawned.
pub data Upload : Type 0 where
  one : (local_path remote_path : Text) → Upload
  several : (remote_dir : Text) → (local_paths : List Text) → Upload

module _ (P : Platform) where
  pub data ClientType : Type 0 where
    none : ClientType
    receiver : Receiver P → ClientType
    sender : Sender P → ClientType

  -- `events` is the channel of the loop; `window_open` and `socket_open` are whether the other ends
  -- still take what is sent, and `opens` is what the file system says at present.
  pub record App : Type 0 where
    pub client : ClientType
    pub events : List (EventMessage P.floats.F32)
    pub window : List (ProcessingEvent P.floats.F32)
    pub window_open : Bool
    pub written : List (List ℕ)
    pub socket_open : Bool
    pub uploads : List Upload
    pub receiver_dir : Disk
    pub sender_dir : Disk
    pub files : Files
    pub opens : Text → Opened

  -- A step of the loop: an error leaves it.
  abbrev pub AppStep : Type 0 → Type 0
  AppStep A = Exec Break App A

  pub ClientType-cases :
      (c : ClientType)
      → (c ≡ none) ⊎ ((r : Receiver P) × (c ≡ receiver r)) ⊎ ((s : Sender P) × (c ≡ sender s))
  ClientType-cases none = inl refl
  ClientType-cases (receiver r) = inr (inl (r, refl))
  ClientType-cases (sender s) = inr (inr (s, refl))

  -- The client of the loop after one of its methods: what that sent is now in the channel.
  unfoldable pub put_receiver : Receiver P → App → App
  put_receiver r app = record app {
    client = receiver r;
    events = app.events ++ r.events;
    receiver_dir = r.disk;
    files = r.files;
  }

  unfoldable pub put_sender : Sender P → App → App
  put_sender s app = record app {
    client = sender s;
    events = app.events ++ s.events;
    sender_dir = s.disk;
  }

  receiver_done :
      Outcome ClientHandlerError (Unit {0}) × Receiver P
      → App
      → Outcome ClientHandlerError (Unit {0}) × App
  unfolding put_receiver
  receiver_done (result, r) app = (result, put_receiver r app)

  sender_done :
      Outcome ClientHandlerError (Unit {0}) × Sender P
      → App
      → Outcome ClientHandlerError (Unit {0}) × App
  unfolding put_sender
  sender_done (result, s) app = (result, put_sender s app)

  -- A method starts with nothing sent.
  -- `match &mut client { ClientType::Receiver(receiver) => …, _ => {} }`
  unfoldable pub for_receiver : Step P (Unit {0}) → Exec ClientHandlerError App (Unit {0})
  unfolding receiver_done
  for_receiver method app = elim app.client [
    | none ↦ (ok tt, app)
    | receiver r ↦ receiver_done (method (record r { events = [] })) app
    | sender s ↦ (ok tt, app)
  ]

  unfoldable pub for_sender : SenderStep P (Unit {0}) → Exec ClientHandlerError App (Unit {0})
  unfolding sender_done
  for_sender method app = elim app.client [
    | none ↦ (ok tt, app)
    | receiver r ↦ (ok tt, app)
    | sender s ↦ sender_done (method (record s { events = [] })) app
  ]

  -- `event_processing_tx.send(…).await.unwrap()`
  unfoldable pub show : ProcessingEvent P.floats.F32 → AppStep (Unit {0})
  show event app =
      if app.window_open
      then (ok tt, record app { window = app.window ++ event ∷ [] })
      else (panic, app)

  -- `write.send(…).await.unwrap()`
  unfoldable pub write : List ℕ → AppStep (Unit {0})
  write bytes app =
      if app.socket_open
      then (ok tt, record app { written = app.written ++ bytes ∷ [] })
      else (panic, app)

  unfoldable pub spawn : Upload → AppStep (Unit {0})
  spawn upload app = (ok tt, record app { uploads = app.uploads ++ upload ∷ [] })
