-- ===== src/App/Emitting.antt =====
-- How much work each handler of the events in rstr_client/src/main.rs puts into the loop's channel.
use rstr.Prelude.{ℕ, subst, inl, inr, Option, none, some, List, [], arith, Bool-cases, Option-cases}
use rstr.Prelude.Text.{Text, ascii}
use rstr.Prelude.Exec.{Outcome, ok, err, panic, ◌>>◌, unwrap}
use rstr.Meta.Types.{MetaIndexEntry}
use rstr.Message.{BinaryMessage}
use rstr.Gui.Types.{ProcessingEvent}
use rstr.Client.Types.{Platform, ClientHandlerError, EventMessage}
use rstr.Client.Receiver
use rstr.Client.Receiver.{Receiver}
use rstr.Client.Chunks
use rstr.Client.Sender
use rstr.Client.Sender.{Sender, on_meta_created, publish}
use rstr.Client.Posting.Weight.{Posts, Posts-trans, Tells-mono, then-Tells}
use rstr.Client.Posting.Receiver as Receiving
use rstr.Client.Posting.Messages as Replying
use rstr.Client.Posting.Sender as Sending
use rstr.App.State.{several, App, ClientType-cases, for_sender, show, write, spawn}
use rstr.App.Adding.{
  Adds, quiet, spawn-Adds, for_receiver-Adds, for_sender-Adds, show-Adds, logged_receiver-Adds,
  logged_sender-Adds, new_receiver-events, new_sender-events, list_paths-Adds, upload_opened-Adds,
}
use rstr.App.Dispatch.{
  receiver_key, sender_key, start_receiver, start_sender, send_encoded, process, published, upload,
  list_paths, upload_multiple, announce, meta_made,
}

module _ (P : Platform) where
  pub start_receiver-Adds : Adds P 1 (start_receiver P)
  unfolding start_receiver
  start_receiver-Adds app = elim (Option-cases (Receiver.new P app.receiver_dir app.files)) [
    | inl unreadable ↦ rw (unreadable, start_receiver) (quiet P 1 app.events)
    | inr (r, made) ↦
        rw (made, start_receiver)
          (logged_receiver-Adds P 1 (Receiver.log_in P (ascii "receiver") receiver_key r).0
            (Receiver.log_in P (ascii "receiver") receiver_key r).1 app
            (subst
              (λ (l : List (EventMessage P.floats.F32)).
                Posts 1 l (Receiver.log_in P (ascii "receiver") receiver_key r).1.events)
              (new_receiver-events P app.receiver_dir app.files r made)
              (Receiving.log_in-Sends P (ascii "receiver") receiver_key r)))
  ]

  pub start_sender-Adds : Adds P 1 (start_sender P)
  unfolding start_sender
  start_sender-Adds app = elim (Option-cases (Sender.new P app.sender_dir)) [
    | inl unreadable ↦ rw (unreadable, start_sender) (quiet P 1 app.events)
    | inr (s, made) ↦
        rw (made, start_sender)
          (logged_sender-Adds P 1 (Sender.log_in P (ascii "sender") sender_key s).0
            (Sender.log_in P (ascii "sender") sender_key s).1 app
            (subst
              (λ (l : List (EventMessage P.floats.F32)).
                Posts 1 l (Sender.log_in P (ascii "sender") sender_key s).1.events)
              (new_sender-events P app.sender_dir s made)
              (Sending.log_in-Sends P (ascii "sender") sender_key s)))
  ]

  pub send_encoded-Adds : (encoded : Option (List ℕ)) → Adds P 0 (send_encoded P encoded)
  unfolding send_encoded write
  send_encoded-Adds none app = quiet P 0 app.events
  send_encoded-Adds (some bytes) app = elim (Bool-cases app.socket_open) [
    | inl there ↦ rw there (quiet P 0 app.events)
    | inr gone ↦ rw gone (quiet P 0 app.events)
  ]

  pub process-Adds : (m : BinaryMessage) → Adds P 2 (process P m)
  unfolding process
  process-Adds m app = elim (ClientType-cases P app.client) [
    | inl nobody ↦ rw (nobody, process) (quiet P 2 app.events)
    | inr (inl (r, receiving)) ↦
        rw (receiving, process)
          (for_receiver-Adds P 2 (Chunks.process_message P m.payload)
            (Replying.process_message-Sends P m.payload) app)
    | inr (inr (s, sending)) ↦
        rw (sending, process)
          (for_sender-Adds P 2 (Sender.process_message P m.payload)
            (Tells-mono (λ (s : Sender P). s.events) 1 2 (Sender.process_message P m.payload)
              (omega arith) (Sending.process_message-Sends P m.payload))
            app)
  ]

  pub upload-Adds : (local_path remote_path : Text) → Adds P 0 (upload P local_path remote_path)
  unfolding upload
  upload-Adds local_path remote_path app = elim (ClientType-cases P app.client) [
    | inl nobody ↦ rw nobody (quiet P 0 app.events)
    | inr (inl (r, receiving)) ↦ rw receiving (quiet P 0 app.events)
    | inr (inr (s, sending)) ↦
        rw (sending, upload)
          (upload_opened-Adds P local_path remote_path (app.opens local_path) app)
  ]

  pub upload_multiple-Adds :
      (remote_dir : Text) (local_paths : List Text)
      → Adds P 0 (upload_multiple P remote_dir local_paths)
  unfolding upload_multiple
  upload_multiple-Adds remote_dir local_paths app = elim (ClientType-cases P app.client) [
    | inl nobody ↦ rw nobody (quiet P 0 app.events)
    | inr (inl (r, receiving)) ↦ rw receiving (quiet P 0 app.events)
    | inr (inr (s, sending)) ↦
        rw (sending, upload_multiple)
          (then-Tells (λ (app : App P). app.events) 0 0 (list_paths P local_paths [])
            (λ meta_files.
              show P (ProcessingEvent.multiple_metadata_creation_started meta_files)
              >> spawn P (several remote_dir local_paths))
            (list_paths-Adds P local_paths [])
            (λ meta_files.
              then-Tells (λ (app : App P). app.events) 0 0
                (show P (ProcessingEvent.multiple_metadata_creation_started meta_files))
                (λ _. spawn P (several remote_dir local_paths)) (show-Adds P _)
                (λ _. spawn-Adds P (several remote_dir local_paths)))
            app)
  ]

  published-Adds : (o : Outcome ClientHandlerError (Unit {0})) → Adds P 0 (published P o)
  unfolding published
  published-Adds (ok u) app = show-Adds P ProcessingEvent.metadata_created app
  published-Adds (err e) app = quiet P 0 app.events
  published-Adds panic app = quiet P 0 app.events

  announce-Adds : (entry : MetaIndexEntry) → Adds P 2 (announce P entry)
  unfolding announce
  announce-Adds entry =
      then-Tells (λ (app : App P). app.events) 1 1 (unwrap (for_sender P (on_meta_created P entry)))
        (λ _ app.
          published P (for_sender P (publish P entry.meta.path) app).0
            (for_sender P (publish P entry.meta.path) app).1)
        (for_sender-Adds P 1 (on_meta_created P entry) (Sending.on_meta_created-Sends P entry))
        (λ _ app.
          Posts-trans 1 0 _ _ _
            (for_sender-Adds P 1 (publish P entry.meta.path)
              (Sending.publish-Sends P entry.meta.path) app)
            (published-Adds _ _))

  pub meta_made-Adds : (entry : MetaIndexEntry) → Adds P 2 (meta_made P entry)
  unfolding meta_made
  meta_made-Adds entry app = elim (ClientType-cases P app.client) [
    | inl nobody ↦ rw nobody (quiet P 2 app.events)
    | inr (inl (r, receiving)) ↦ rw receiving (quiet P 2 app.events)
    | inr (inr (s, sending)) ↦ rw (sending, meta_made) (announce-Adds entry app)
  ]
