-- ===== src/App/Draining.antt =====
-- The loop of `event_processor_task` in rstr_client/src/main.rs gets to the end of its work: handling
-- an event makes less work than it takes off the channel.
use rstr.Prelude.{
  ℕ, zero, suc, ◌-◌, ◌*◌, length, ◌≤◌, ◌<◌, ◌≡◌, sym, ap, subst, inl, inr, List, [], ◌∷◌, arith,
  List-cases,
}
use rstr.Prelude.Exec.{Outcome, ok, Outcome-cases, ◌>>◌, unwrap}
use rstr.Gui.Types.{ProcessingEvent}
use rstr.Client.Types.{
  Platform, EventMessage, process_message, send_message, upload_meta, upload_multiple_meta,
  log_in_as_receiver, log_in_as_sender, logged_in_as_receiver, meta_creation_error, meta_created,
  file_requested, file_resumed, download_stopped, transfer_started, transfer_finished,
  transfer_stopped, quit,
}
use rstr.Client.Receiver.{request_new_meta, request_file, resume_file, stop_transmition}
use rstr.Client.Posting.Weight.{weight, total, total-append, then-Tells}
use rstr.Client.Posting.Receiver as Receiving
use rstr.App.State.{Codec, Break, App, for_receiver, show}
use rstr.App.Adding.{Adds, quiet, for_receiver-Adds, show-Adds}
use rstr.App.Dispatch.{handle}
use rstr.App.Loop.{event_loop}
use rstr.App.Emitting.{
  start_receiver-Adds, start_sender-Adds, send_encoded-Adds, process-Adds, upload-Adds,
  upload_multiple-Adds, meta_made-Adds,
}

module _ (P : Platform) where
  weight_pos : (event : EventMessage P.floats.F32) → 0 < weight event
  weight_pos log_in_as_receiver = omega arith
  weight_pos event = ground arith

  weight-le : (event : EventMessage P.floats.F32) → weight event ≤ 3
  weight-le log_in_as_receiver = omega arith
  weight-le event = ground arith

  total-le : (events : List (EventMessage P.floats.F32)) → total events ≤ 3 * length events
  total-le [] = omega arith
  total-le (e ∷ events) = omega (arith, weight-le e, total-le events)

  module _ (C : Codec) where
    -- Whatever the event is, its handling puts less work into the channel than it has taken off.
    pub handle-Adds :
        (event : EventMessage P.floats.F32) → Adds P (weight event - 1) (handle P C event)
    unfolding handle
    handle-Adds log_in_as_receiver app = start_receiver-Adds P app
    handle-Adds log_in_as_sender app = start_sender-Adds P app
    handle-Adds (logged_in_as_receiver dirs files) app =
        then-Tells (λ (app : App P). app.events) 0 1
          (show P (ProcessingEvent.logged_in_as_receiver dirs files))
          (λ _. unwrap (for_receiver P (request_new_meta P))) (show-Adds P _)
          (λ _. for_receiver-Adds P 1 (request_new_meta P) (Receiving.request_new_meta-Sends P)) app
    handle-Adds (send_message m) app = send_encoded-Adds P (C.encode m) app
    handle-Adds (process_message m) app = process-Adds P m app
    handle-Adds (upload_meta local_path remote_path) app = upload-Adds P local_path remote_path app
    handle-Adds (upload_multiple_meta remote_dir local_paths) app =
        upload_multiple-Adds P remote_dir local_paths app
    handle-Adds (meta_created entry) app = meta_made-Adds P entry app
    handle-Adds (file_requested p local_path) app =
        for_receiver-Adds P 2 (request_file P p local_path)
          (Receiving.request_file-Sends P p local_path) app
    handle-Adds (file_resumed p) app =
        for_receiver-Adds P 2 (resume_file P p) (Receiving.resume_file-Sends P p) app
    handle-Adds download_stopped app =
        for_receiver-Adds P 2 (stop_transmition P) (Receiving.stop_transmition-Sends P) app
    handle-Adds meta_creation_error app = quiet P 0 app.events
    handle-Adds (transfer_started file) app = quiet P 0 app.events
    handle-Adds transfer_stopped app = quiet P 0 app.events
    handle-Adds transfer_finished app = quiet P 0 app.events
    handle-Adds quit app = quiet P 0 app.events
    handle-Adds _ app = show-Adds P _ app

    one_round :
        (rounds : ℕ) (event : EventMessage P.floats.F32) (rest : List (EventMessage P.floats.F32))
        (app : App P)
        → app.events ≡ event ∷ rest
        → event_loop P C (suc rounds) app
          ≡ (handle P C event >> event_loop P C rounds) (record app { events = rest })
    unfolding event_loop
    one_round rounds event rest app e = rw (e, event_loop)

    -- The loop has ended, or it waits at the end of the channel.
    abbrev Drained : Outcome Break (Unit {0}) × App P → Type 0
    Drained result = result.0 ≡ ok tt → result.1.events ≡ []

    weighed_loop_drains :
        (rounds : ℕ) (app : App P)
        → total app.events ≤ rounds
        → (event_loop P C rounds app).0 ≡ ok tt
        → (event_loop P C rounds app).1.events ≡ []
    weighed_loop_drains zero app few = elim (List-cases app.events) [
      | inl empty ↦ unfold event_loop in λ _. empty
      | inr (event, rest, there) ↦ absurd (omega (arith, ap total there, weight_pos event))
    ]
    weighed_loop_drains (suc rounds) app few = elim (List-cases app.events) [
      | inl empty ↦ unfold event_loop in rw (empty, event_loop) (λ _. empty)
      | inr (event, rest, there) ↦
          subst Drained (sym (one_round rounds event rest app there))
            (elim (Outcome-cases (handle P C event (record app { events = rest })).0) [
              | inl (u, handled) ↦
                  let (news, put, less, fresh) = handle-Adds event (record app { events = rest }) in
                  rw handled (
                    weighed_loop_drains rounds (handle P C event (record app { events = rest })).1 (
                      omega (
                        arith,
                        ap total there,
                        ap total put,
                        total-append rest news,
                        weight_pos event,
                      )))
              | inr (inl (b, left)) ↦ rw left (λ fine. cc)
              | inr (inr crashed) ↦ rw crashed (λ fine. cc)
            ])
    ]

    -- With three rounds for each event in the channel, the loop has ended or is at the end of the
    -- channel: whatever its handlers put into the channel themselves, it does not run on without a
    -- word from the user, the server or another task.
    pub event_loop_drains :
        (rounds : ℕ) (app : App P)
        → 3 * length app.events ≤ rounds
        → (event_loop P C rounds app).0 ≡ ok tt
        → (event_loop P C rounds app).1.events ≡ []
    event_loop_drains rounds app enough =
        weighed_loop_drains rounds app (omega (arith, total-le app.events))
