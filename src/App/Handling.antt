-- ===== src/App/Handling.antt =====
-- Every event that the loop of rstr_client/src/main.rs handles keeps the program's indices valid.
use rstr.Prelude.{◌≡◌, inl, inr, Option, none, some, List, [], Bool-cases, ℕ}
use rstr.Prelude.Exec.{Outcome, ok, err, panic, unwrap}
use rstr.Meta.Types.{MetaIndexEntry}
use rstr.Meta.Reloading.{save-HoldsValid}
use rstr.Message.{BinaryMessage}
use rstr.Gui.Types.{ProcessingEvent}
use rstr.Client.Types.{
  Platform, ClientHandlerError, EventMessage, process_message, send_message, upload_meta,
  upload_multiple_meta, log_in_as_receiver, log_in_as_sender, logged_in_as_receiver,
  meta_creation_error, meta_created, file_requested, file_resumed, download_stopped,
  transfer_started, transfer_finished, transfer_stopped, quit,
}
use rstr.Client.Receiver.{request_new_meta, request_file, resume_file, stop_transmition}
use rstr.Client.Chunks
use rstr.Client.Sender
use rstr.Client.Sender.{Sender, on_meta_created, publish}
use rstr.Client.Keeping as Receiving
use rstr.Client.Operating
use rstr.Client.Offering as Sending
use rstr.App.State.{Codec, ClientType-cases, for_receiver, for_sender, show, write}
use rstr.App.Dispatch.{send_encoded, process, published, announce, meta_made, handle}
use rstr.Client.Posting.Weight.{IsFresh}
use rstr.App.Soundness.{Held, Keeps, then-Keeps, for_receiver-Keeps, for_sender-Keeps}
use rstr.App.Starting.{start_receiver-Keeps, start_sender-Keeps}
use rstr.App.Uploading.{show-Keeps, upload-Keeps, upload_multiple-Keeps}

module _ (P : Platform) (nothing : P.bincode.decode [] ≡ none) where
  send_encoded-Keeps : (encoded : Option (List ℕ)) → Keeps P nothing (send_encoded P encoded)
  unfolding send_encoded write
  send_encoded-Keeps none app v = v
  send_encoded-Keeps (some bytes) app v = elim (Bool-cases app.socket_open) [
    | inl there ↦ rw there v
    | inr gone ↦ rw gone v
  ]

  process-Keeps : (m : BinaryMessage) → Keeps P nothing (process P m)
  unfolding process
  process-Keeps m app v = elim (ClientType-cases P app.client) [
    | inl nobody ↦ rw (nobody, process) v
    | inr (inl (r, receiving)) ↦
        rw (receiving, process)
          (for_receiver-Keeps P nothing (Chunks.process_message P m.payload)
            (Receiving.process_message-Keeps P (Held P nothing) (save-HoldsValid P.bincode nothing)
              m.payload)
            app v)
    | inr (inr (s, sending)) ↦
        rw (sending, process)
          (for_sender-Keeps P nothing (Sender.process_message P m.payload)
            (Sending.process_message-Keeps P (Held P nothing) (save-HoldsValid P.bincode nothing)
              m.payload)
            app v)
  ]

  published-Keeps : (o : Outcome ClientHandlerError (Unit {0})) → Keeps P nothing (published P o)
  unfolding published
  published-Keeps (ok u) app v = show-Keeps P nothing ProcessingEvent.metadata_created app v
  published-Keeps (err e) app v = v
  published-Keeps panic app v = v

  announce-Keeps :
      (entry : MetaIndexEntry) → entry.received_chunks ≡ [] → Keeps P nothing (announce P entry)
  unfolding announce
  announce-Keeps entry fresh =
      then-Keeps P nothing (unwrap (for_sender P (on_meta_created P entry)))
        (λ _ app.
          published P (for_sender P (publish P entry.meta.path) app).0
            (for_sender P (publish P entry.meta.path) app).1)
        (for_sender-Keeps P nothing (on_meta_created P entry) (
          Sending.on_meta_created-Keeps P (Held P nothing) (save-HoldsValid P.bincode nothing) entry
            fresh))
        (λ _ app v.
          published-Keeps (for_sender P (publish P entry.meta.path) app).0
            (for_sender P (publish P entry.meta.path) app).1
            (for_sender-Keeps P nothing (publish P entry.meta.path)
              (Sending.publish-Keeps P (Held P nothing) (save-HoldsValid P.bincode nothing)
                entry.meta.path)
              app v))

  meta_made-Keeps :
      (entry : MetaIndexEntry) → entry.received_chunks ≡ [] → Keeps P nothing (meta_made P entry)
  unfolding meta_made
  meta_made-Keeps entry fresh app v = elim (ClientType-cases P app.client) [
    | inl nobody ↦ rw (nobody, meta_made) v
    | inr (inl (r, receiving)) ↦ rw (receiving, meta_made) v
    | inr (inr (s, sending)) ↦ rw (sending, meta_made) (announce-Keeps entry fresh app v)
  ]

  module _ (C : Codec) where
    pub handle-Keeps :
        (event : EventMessage P.floats.F32) → IsFresh event → Keeps P nothing (handle P C event)
    unfolding handle
    handle-Keeps log_in_as_receiver fresh app v = start_receiver-Keeps P nothing app v
    handle-Keeps log_in_as_sender fresh app v = start_sender-Keeps P nothing app v
    handle-Keeps (logged_in_as_receiver dirs files) fresh app v =
        then-Keeps P nothing (show P (ProcessingEvent.logged_in_as_receiver dirs files))
          (λ _. unwrap (for_receiver P (request_new_meta P))) (show-Keeps P nothing _)
          (λ _. for_receiver-Keeps P nothing (request_new_meta P) (
            Operating.request_new_meta-Keeps P (Held P nothing)
              (save-HoldsValid P.bincode nothing)))
          app v
    handle-Keeps (send_message m) fresh app v = send_encoded-Keeps (C.encode m) app v
    handle-Keeps (process_message m) fresh app v = process-Keeps m app v
    handle-Keeps (upload_meta local_path remote_path) fresh app v =
        upload-Keeps P nothing local_path remote_path app v
    handle-Keeps (upload_multiple_meta remote_dir local_paths) fresh app v =
        upload_multiple-Keeps P nothing remote_dir local_paths app v
    handle-Keeps (meta_created entry) fresh app v = meta_made-Keeps entry fresh app v
    handle-Keeps (file_requested p local_path) fresh app v =
        for_receiver-Keeps P nothing (request_file P p local_path)
          (Operating.request_file-Keeps P (Held P nothing) (save-HoldsValid P.bincode nothing) p
            local_path)
          app v
    handle-Keeps (file_resumed p) fresh app v =
        for_receiver-Keeps P nothing (resume_file P p)
          (Operating.resume_file-Keeps P (Held P nothing) (save-HoldsValid P.bincode nothing) p) app
          v
    handle-Keeps download_stopped fresh app v =
        for_receiver-Keeps P nothing (stop_transmition P)
          (Operating.stop_transmition-Keeps P (Held P nothing) (save-HoldsValid P.bincode nothing))
          app v
    handle-Keeps meta_creation_error fresh app v = v
    handle-Keeps (transfer_started file) fresh app v = v
    handle-Keeps transfer_stopped fresh app v = v
    handle-Keeps transfer_finished fresh app v = v
    handle-Keeps quit fresh app v = v
    handle-Keeps _ fresh app v = show-Keeps P nothing _ app v
