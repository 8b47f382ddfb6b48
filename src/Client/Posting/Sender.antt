-- ===== src/Client/Posting/Sender.antt =====
-- What each method of `Sender` in rstr_client/src/client.rs sends into the channel.
use rstr.Prelude.{
  ℕ, ◌≡◌, refl, inl, inr, List, [], ◌∷◌, ◌==◌, get_elem?, arith, Bool-cases, Option-cases,
}
use rstr.Prelude.Text.{Text}
use rstr.Prelude.Exec.{Outcome-cases, ◌>>=◌, unwrap}
use rstr.Meta.Types.{MetaIndexEntry}
use rstr.Meta.Index.{find_entry, add_entry}
use rstr.Meta.Storage.{save}
use rstr.Message.{
  MessagePayload, message, request_chunk, stop_chunk, login_success, publish_meta, RequestChunkData,
}
use rstr.Client.Types.{
  Platform, EventMessage, send_message, update_sender_files, logged_in_as_sender, Directory,
  SenderFile, SenderState, ClientHandlerError,
}
use rstr.Client.Listing.{listing, sender_file}
use rstr.Client.Sender.{
  Sender, SenderStep, send_event, send_payload, log_in, convert_index, on_meta_created, publish,
  process_request_chunk, cancel_transfer, process_message, save_index, start_transfer,
}
use rstr.Client.Posting.Weight.{weight, IsFresh, Posts, nothing, Tells, Tells-mono}

module _ (P : Platform) where
  abbrev pub Sends : {A : Type 0} → ℕ → SenderStep P A → Type 0
  Sends k m = Tells (λ (s : Sender P). s.events) k m

  abbrev quiet : (k : ℕ) (events : List (EventMessage P.floats.F32)) → Posts k events events
  quiet k events = nothing k events events refl

  send_event-Sends : (m : EventMessage P.floats.F32) → IsFresh m → Sends (weight m) (send_event P m)
  unfolding send_event
  send_event-Sends m fresh s = elim (Bool-cases s.stopped) [
    | inl gone ↦ rw gone (quiet (weight m) s.events)
    | inr running ↦ rw running (m ∷ [], refl, omega arith, (fresh, tt))
  ]

  send_payload-Sends : (m : MessagePayload) → Sends 1 (send_payload P m)
  unfolding send_payload
  send_payload-Sends m = send_event-Sends (send_message (message m)) tt

  pub log_in-Sends : (username password : Text) → Sends 1 (log_in P username password)
  unfolding log_in
  log_in-Sends username password = send_payload-Sends _

  -- An unwrapped send of the new listing.
  unwrapped-Sends :
      (m : EventMessage P.floats.F32)
      → IsFresh m
      → weight m ≡ 1
      → Sends 1 (unwrap {F = ClientHandlerError} (send_event P m))
  unwrapped-Sends m fresh light s =
      Tells-mono (λ (s : Sender P). s.events) (weight m) 1 (send_event P m) (omega arith)
        (send_event-Sends m fresh) s

  listing-Sends :
      (f : List Directory × List SenderFile → EventMessage P.floats.F32)
      → ((shown : List Directory × List SenderFile) → IsFresh (f shown))
      → ((shown : List Directory × List SenderFile) → weight (f shown) ≡ 1)
      → Sends 1 (convert_index P >>= λ shown. unwrap (send_event P (f shown)))
  unfolding convert_index
  listing-Sends f fresh light s = elim (Option-cases (listing P (sender_file P) s.index)) [
    | inl lost ↦ rw lost (quiet 1 s.events)
    | inr (shown, made) ↦ rw made (unwrapped-Sends (f shown) (fresh shown) (light shown) s)
  ]

  pub on_meta_created-Sends : (entry : MetaIndexEntry) → Sends 1 (on_meta_created P entry)
  unfolding on_meta_created save_index
  on_meta_created-Sends entry s =
      elim (Outcome-cases (save P.bincode (add_entry s.index entry) s.disk).0) [
        | inr (inr crashed) ↦ rw crashed (quiet 1 s.events)
        | inr (inl (e, failed)) ↦ rw failed (quiet 1 s.events)
        | inl (u, saved) ↦
            rw saved
              (listing-Sends (λ shown. update_sender_files shown.0 shown.1) (λ _. tt) (λ _. refl) _)
      ]

  pub publish-Sends : (p : Text) → Sends 1 (publish P p)
  unfolding publish
  publish-Sends p s = elim (Option-cases (find_entry s.index p)) [
    | inl missing ↦ rw missing (quiet 1 s.events)
    | inr (e, found) ↦ rw found (send_payload-Sends (publish_meta e.meta) s)
  ]

  request_chunk-Sends : (request : RequestChunkData) → Sends 1 (process_request_chunk P request)
  unfolding process_request_chunk start_transfer
  request_chunk-Sends request s = elim (Option-cases (find_entry s.index request.path)) [
    | inl missing ↦ rw missing (quiet 1 s.events)
    | inr (e, found) ↦ elim (Option-cases (get_elem? e.meta.chunks request.index)) [
      | inl none_there ↦ rw found (rw none_there (quiet 1 s.events))
      | inr (c, there) ↦ elim (Bool-cases (c.hash == request.hash)) [
        | inl right ↦ rw found (rw there (rw right (quiet 1 s.events)))
        | inr wrong ↦ rw found (rw there (rw wrong (quiet 1 s.events)))
      ]
    ]
  ]

  cancel_transfer-Sends : Sends 1 (cancel_transfer P)
  unfolding cancel_transfer
  cancel_transfer-Sends s = elim (Option-cases s.sender_cancellation_token) [
    | inl idle ↦ rw idle (quiet 1 s.events)
    | inr (token, running) ↦ rw running (quiet 1 s.events)
  ]

  pub process_message-Sends : (payload : MessagePayload) → Sends 1 (process_message P payload)
  unfolding process_message
  process_message-Sends (request_chunk request) s = request_chunk-Sends request s
  process_message-Sends stop_chunk s = cancel_transfer-Sends s
  process_message-Sends login_success s =
      listing-Sends (λ shown. logged_in_as_sender shown.0 shown.1) (λ _. tt) (λ _. refl)
        (record s { state = SenderState.idle })
  process_message-Sends _ s = quiet 1 s.events
