-- ===== src/App/Adding.antt =====
-- What the parts of the handlers in rstr_client/src/main.rs put into the channel of the event loop.
use rstr.Prelude.{
  ℕ, ◌≡◌, refl, ap, inl, inr, some, List, [], ◌∷◌, ◌++◌, arith, Bool-cases, Option-cases,
}
use rstr.Prelude.Text.{Text}
use rstr.Prelude.Exec.{Exec, Outcome, ok, err, panic, Outcome-cases, ◌>>=◌, ◌>>◌}
use rstr.Gui.Types.{ProcessingEvent, MetaFile}
use rstr.Client.Types.{Platform, ClientHandlerError, EventMessage}
use rstr.Client.Receiver
use rstr.Client.Receiver.{
  Receiver, Files, Step, request_new_meta, request_file, resume_file, stop_transmition,
}
use rstr.Client.Sender
use rstr.Client.Sender.{Sender, SenderStep, on_meta_created, publish}
use rstr.Client.Posting.Weight.{Posts, nothing, Tells, then-Tells}
use rstr.Client.Posting.Receiver as Receiving
use rstr.Client.Posting.Sender as Sending
use rstr.App.Paths.{path_file_name, to_str}
use rstr.App.State.{
  Opened, refused, without_metadata, opened, Upload, one, App, ClientType-cases, put_receiver,
  put_sender, for_receiver, for_sender, show, spawn,
}
use rstr.Meta.Storage.{Disk, load}
use rstr.App.Dispatch.{
  cannot_be_opened, logged_receiver, logged_sender, failed, name_of, upload_opened, listed, upload,
  list_paths,
}

module _ (P : Platform) where
  -- A step that puts at most this much into the channel.
  abbrev pub Adds : {E A : Type 0} → ℕ → Exec E (App P) A → Type 0
  Adds k m = Tells (λ (app : App P). app.events) k m

  abbrev pub quiet : (k : ℕ) (events : List (EventMessage P.floats.F32)) → Posts k events events
  quiet k events = nothing k events events refl

  -- What a method has sent is put behind what was in the channel.
  pub joined :
      (k : ℕ) (before sent : List (EventMessage P.floats.F32))
      → Posts k [] sent
      → Posts k before (before ++ sent)
  joined k before sent (news, same, few, fresh) = (news, ap (λ l. before ++ l) same, few, fresh)

  pub for_receiver-Adds :
      (k : ℕ) (m : Step P (Unit {0})) → Receiving.Sends P k m → Adds k (for_receiver P m)
  unfolding for_receiver put_receiver
  for_receiver-Adds k m h app = elim (ClientType-cases P app.client) [
    | inl nobody ↦ rw nobody (quiet k app.events)
    | inr (inr (s, sending)) ↦ rw sending (quiet k app.events)
    | inr (inl (r, receiving)) ↦ rw receiving (joined k app.events _ (h (record r { events = [] })))
  ]

  pub for_sender-Adds :
      (k : ℕ) (m : SenderStep P (Unit {0})) → Sending.Sends P k m → Adds k (for_sender P m)
  unfolding for_sender put_sender
  for_sender-Adds k m h app = elim (ClientType-cases P app.client) [
    | inl nobody ↦ rw nobody (quiet k app.events)
    | inr (inl (r, receiving)) ↦ rw receiving (quiet k app.events)
    | inr (inr (s, sending)) ↦ rw sending (joined k app.events _ (h (record s { events = [] })))
  ]

  pub show-Adds : (event : ProcessingEvent P.floats.F32) → Adds 0 (show P event)
  unfolding show
  show-Adds event app = elim (Bool-cases app.window_open) [
    | inl there ↦ rw there (quiet 0 app.events)
    | inr gone ↦ rw gone (quiet 0 app.events)
  ]

  pub spawn-Adds : (upload : Upload) → Adds 0 (spawn P upload)
  unfolding spawn
  spawn-Adds upload app = quiet 0 app.events

  pub logged_receiver-Adds :
      (k : ℕ) (o : Outcome ClientHandlerError (Unit {0})) (r : Receiver P) (app : App P)
      → Posts k [] r.events
      → Posts k app.events (logged_receiver P (o, r) app).1.events
  unfolding logged_receiver put_receiver
  logged_receiver-Adds k (ok u) r app h = joined k app.events r.events h
  logged_receiver-Adds k (err e) r app h = quiet k app.events
  logged_receiver-Adds k panic r app h = quiet k app.events

  pub logged_sender-Adds :
      (k : ℕ) (o : Outcome ClientHandlerError (Unit {0})) (s : Sender P) (app : App P)
      → Posts k [] s.events
      → Posts k app.events (logged_sender P (o, s) app).1.events
  unfolding logged_sender put_sender
  logged_sender-Adds k (ok u) s app h = joined k app.events s.events h
  logged_sender-Adds k (err e) s app h = quiet k app.events
  logged_sender-Adds k panic s app h = quiet k app.events

  pub new_receiver-events :
      (disk : Disk) (files : Files) (r : Receiver P)
      → Receiver.new P disk files ≡ some r
      → r.events ≡ []
  unfolding Receiver.new
  new_receiver-events disk files r h = elim (Outcome-cases (load P.bincode disk)) [
    | inl (index, loaded) ↦ ground (arith, loaded)
    | inr (inl (e, failed)) ↦ ground (arith, failed)
    | inr (inr crashed) ↦ ground (arith, crashed)
  ]

  pub new_sender-events : (disk : Disk) (s : Sender P) → Sender.new P disk ≡ some s → s.events ≡ []
  unfolding Sender.new
  new_sender-events disk s h = elim (Outcome-cases (load P.bincode disk)) [
    | inl (index, loaded) ↦ ground (arith, loaded)
    | inr (inl (e, failed)) ↦ ground (arith, failed)
    | inr (inr crashed) ↦ ground (arith, crashed)
  ]

  pub failed-Adds : (local_path : Text) → Adds 0 (failed P local_path)
  unfolding failed
  failed-Adds local_path app = elim (Option-cases (to_str local_path)) [
    | inl strange ↦ rw strange (quiet 0 app.events)
    | inr (path, readable) ↦
        rw readable
          (show-Adds (ProcessingEvent.metadata_creation_failed (cannot_be_opened path)) app)
  ]

  pub name_of-Adds : (local_path : Text) → Adds 0 (name_of P local_path)
  unfolding name_of
  name_of-Adds local_path app = elim (Option-cases (path_file_name local_path)) [
    | inl nameless ↦ rw nameless (quiet 0 app.events)
    | inr (name, there) ↦ elim (Option-cases (to_str name)) [
      | inl strange ↦ rw there (rw strange (quiet 0 app.events))
      | inr (n, readable) ↦ rw there (rw readable (quiet 0 app.events))
    ]
  ]

  pub listed-Adds :
      (local_path name : Text) (meta_files : List MetaFile) (o : Opened)
      → Adds 0 (listed P local_path name meta_files o)
  unfolding listed
  listed-Adds local_path name meta_files refused =
      then-Tells (λ (app : App P). app.events) 0 0 (failed P local_path)
        (λ _ app. (ok meta_files, app)) (failed-Adds local_path) (λ _ app. quiet 0 app.events)
  listed-Adds local_path name meta_files without_metadata = λ app. quiet 0 app.events
  listed-Adds local_path name meta_files (opened size) = λ app. quiet 0 app.events

  pub list_paths-Adds :
      (local_paths : List Text) (meta_files : List MetaFile)
      → Adds 0 (list_paths P local_paths meta_files)
  unfolding list_paths
  list_paths-Adds [] meta_files app = quiet 0 app.events
  list_paths-Adds (local_path ∷ local_paths) meta_files app =
      then-Tells (λ (app : App P). app.events) 0 0 (name_of P local_path)
        (λ name. (λ app. listed P local_path name meta_files (app.opens local_path) app) >>= λ more.
          list_paths P local_paths more)
        (name_of-Adds local_path)
        (λ name.
          then-Tells (λ (app : App P). app.events) 0 0
            (λ app. listed P local_path name meta_files (app.opens local_path) app)
            (λ more. list_paths P local_paths more)
            (λ app. listed-Adds local_path name meta_files (app.opens local_path) app)
            (λ more. list_paths-Adds local_paths more))
        app

  pub upload_opened-Adds :
      (local_path remote_path : Text) (o : Opened)
      → Adds 0 (upload_opened P local_path remote_path o)
  unfolding upload_opened spawn
  upload_opened-Adds local_path remote_path refused app = failed-Adds local_path app
  upload_opened-Adds local_path remote_path without_metadata app = quiet 0 app.events
  upload_opened-Adds local_path remote_path (opened size) app =
      then-Tells (λ (app : App P). app.events) 0 0 (name_of P local_path)
        (λ name.
          show P (
            ProcessingEvent.metadata_creation_started
              (record { name = name; formatted_size = P.format_size size }))
          >> spawn P (one local_path remote_path))
        (name_of-Adds local_path)
        (λ name.
          then-Tells (λ (app : App P). app.events) 0 0
            (show P (
              ProcessingEvent.metadata_creation_started
                (record { name = name; formatted_size = P.format_size size })))
            (λ _. spawn P (one local_path remote_path)) (show-Adds _) (λ _ app. quiet 0 app.events))
        app
