-- ===== src/App/Program.antt =====
-- The client program of rstr_client/src/main.rs as a whole: its event loop, its window and everything
-- that puts events into their channels, as a step relation.
use rstr.Prelude.{ℕ, ◌≡◌, Bool, Option, some, List, [], ◌∷◌, ◌++◌, map}
use rstr.Prelude.Int.{ℤ}
use rstr.Prelude.Text.{Text}
use mathlib.Core.List.{Memᴰ}
use rstr.Meta.Create.{LocalFile}
use rstr.Message.{BinaryMessage}
use rstr.Gui.Types.{ProcessingEvent}
use rstr.Gui.Screen.{Window}
use rstr.Gui.Window.{process_event}
use rstr.Gui.Callbacks.{Click, Ui, on_click}
use rstr.Client.Types.{Platform, EventMessage, process_message, meta_progress_report}
use rstr.Client.Sender.{create_meta, create_multiple_meta}
use rstr.Client.Transmit.{transmit_task}
use rstr.App.State.{Codec, Opened, App, one, several}
use rstr.App.Dispatch.{handle}

module _ (P : Platform) (C : Codec) where
  pub record Program : Type 0 where
    pub app : App P
    pub ui : Ui P.floats.F32
    pub window : Window P.floats.F32

  -- `event_tx.send(event)` by another task.
  abbrev pub posted : EventMessage P.floats.F32 → Program → Program
  posted event p = record p { app = record p.app { events = p.app.events ++ event ∷ [] } }

  -- What a callback has sent goes into both channels.
  abbrev pub after_click : Ui P.floats.F32 → Program → Program
  after_click ui p = record p {
    app = record p.app {
      events = p.app.events ++ ui.events;
      window = p.app.window ++ ui.processing;
    };
    ui = ui;
  }

  abbrev pub clicked_ui : Click → Program → Ui P.floats.F32
  clicked_ui click p =
      (on_click P.floats.F32 click (record p.ui { events = []; processing = [] })).1

  pub data Step : Program → Program → Type 0 where
    -- The event loop takes one event.
    handled :
        (event : EventMessage P.floats.F32) (rest : List (EventMessage P.floats.F32)) (p : Program)
        → p.app.events ≡ event ∷ rest
        → Step p (record p { app = (handle P C event (record p.app { events = rest })).1 })
    -- The window takes one of its events.
    displayed :
        (event : ProcessingEvent P.floats.F32) (rest : List (ProcessingEvent P.floats.F32))
        (p : Program)
        → p.app.window ≡ event ∷ rest
        → Step p (record p {
          app = record p.app { window = rest };
          window = process_event P.floats.zero_f32 event p.window;
        })
    -- The user does something in the windows.
    clicked : (click : Click) (p : Program) → Step p (after_click (clicked_ui click p) p)
    -- `read_task` has read a message.
    received :
        (bytes : List ℕ) (binary_message : BinaryMessage) (p : Program)
        → C.decode bytes ≡ some binary_message
        → Step p (posted (process_message binary_message) p)
    -- A task that makes metadata reports its progress, or is done with a file.
    progressed :
        (progress : P.floats.F32) (p : Program) → Step p (posted (meta_progress_report progress) p)
    made :
        (local_path remote_path : Text) (file : Option LocalFile) (now : ℤ) (p : Program)
        → Memᴰ (one local_path remote_path) p.app.uploads
        → Step p (posted (create_meta P local_path file remote_path now) p)
    made_one_of :
        (files : List (Text × Text × Option LocalFile × ℤ)) (remote_dir : Text)
        (event : EventMessage P.floats.F32) (p : Program)
        → Memᴰ (several remote_dir (map (λ f. f.0) files)) p.app.uploads
        → Memᴰ event (create_multiple_meta P files remote_dir)
        → Step p (posted event p)
    -- A task that serves a chunk sends a part of it.
    served :
        (chunk_size sent : ℕ) (buffers : List (List ℕ)) (event : EventMessage P.floats.F32)
        (p : Program)
        → Memᴰ event (transmit_task chunk_size buffers sent)
        → Step p (posted event p)
    -- The file system or the socket has changed.
    changed :
        (opens : Text → Opened) (socket_open : Bool) (p : Program)
        → Step p (record p { app = record p.app { opens = opens; socket_open = socket_open } })

  pub data Reach (s : Program) : Program → Type 0 where
    here : Reach s s
    next : {t u : Program} → Reach s t → Step t u → Reach s u
