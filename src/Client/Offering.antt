-- ===== src/Client/Offering.antt =====
-- The methods of `Sender` in rstr_client/src/client.rs keep its index valid, and with it a property of
-- the data directory that saving a valid index keeps.
use rstr.Prelude.{◌≡◌, inl, inr, Bool-cases, Option-cases, [], get_elem?, ◌==◌}
use rstr.Prelude.Text.{Text}
use rstr.Prelude.Exec.{Outcome-cases}
use rstr.Meta.Types.{MetaIndex, MetaIndexEntry}
use rstr.Meta.Index.{find_entry, add_entry}
use rstr.Meta.Received.{IsValid, add_entry-IsValid}
use rstr.Meta.Storage.{Disk, save}
use rstr.Message.{MessagePayload, RequestChunkData, login_success, request_chunk, stop_chunk}
use rstr.Client.Types.{Platform, EventMessage, SenderState}
use rstr.Client.Listing.{listing, sender_file}
use rstr.Client.Sender.{
  Sender, SenderStep, send_event, send_payload, log_in, convert_index, on_meta_created, publish,
  process_request_chunk, cancel_transfer, process_message, save_index, start_transfer,
}

module _ (P : Platform) (D : Disk → Type 0)
    (saves : (index : MetaIndex) (disk : Disk)
      → IsValid index
      → D disk
      → D (save P.bincode index disk).1) where
  abbrev pub Sound : Sender P → Type 0
  Sound s = IsValid s.index × D s.disk

  abbrev pub Keeps : {A : Type 0} → SenderStep P A → Type 0
  Keeps m = (s : Sender P) → Sound s → Sound (m s).1

  send_event-Keeps : (m : EventMessage P.floats.F32) → Keeps (send_event P m)
  unfolding send_event
  send_event-Keeps m s v = elim (Bool-cases s.stopped) [
    | inl gone ↦ rw gone v
    | inr running ↦ rw running v
  ]

  send_payload-Keeps : (m : MessagePayload) → Keeps (send_payload P m)
  unfolding send_payload
  send_payload-Keeps m = send_event-Keeps _

  pub log_in-Keeps : (username password : Text) → Keeps (log_in P username password)
  unfolding log_in
  log_in-Keeps username password = send_payload-Keeps _

  pub on_meta_created-Keeps :
      (entry : MetaIndexEntry) → entry.received_chunks ≡ [] → Keeps (on_meta_created P entry)
  unfolding on_meta_created save_index convert_index
  on_meta_created-Keeps entry fresh s v =
      let grown : IsValid (add_entry s.index entry) =
        add_entry-IsValid s.index entry (record { once = rw fresh tt; known = rw fresh tt }) v.0 in
      let stored : D (save P.bincode (add_entry s.index entry) s.disk).1 =
        saves (add_entry s.index entry) s.disk grown v.1 in
      elim (Outcome-cases (save P.bincode (add_entry s.index entry) s.disk).0) [
        | inr (inr crashed) ↦ rw crashed (grown, stored)
        | inr (inl (e, failed)) ↦ rw failed (grown, stored)
        | inl (u, saved) ↦
            elim (Option-cases (listing P (sender_file P) (add_entry s.index entry))) [
              | inl lost ↦ rw saved (rw lost (grown, stored))
              | inr (shown, made) ↦ rw saved (rw made (send_event-Keeps _ _ (grown, stored)))
            ]
      ]

  pub publish-Keeps : (p : Text) → Keeps (publish P p)
  unfolding publish
  publish-Keeps p s v = elim (Option-cases (find_entry s.index p)) [
    | inl missing ↦ rw missing v
    | inr (e, found) ↦ rw found (send_payload-Keeps _ s v)
  ]

  request_chunk-Keeps : (request : RequestChunkData) → Keeps (process_request_chunk P request)
  unfolding process_request_chunk start_transfer
  request_chunk-Keeps request s v = elim (Option-cases (find_entry s.index request.path)) [
    | inl missing ↦ rw missing v
    | inr (e, found) ↦ elim (Option-cases (get_elem? e.meta.chunks request.index)) [
      | inl none_there ↦ rw found (rw none_there v)
      | inr (c, there) ↦ elim (Bool-cases (c.hash == request.hash)) [
        | inl right ↦ rw found (rw there (rw right v))
        | inr wrong ↦ rw found (rw there (rw wrong v))
      ]
    ]
  ]

  cancel_transfer-Keeps : Keeps (cancel_transfer P)
  unfolding cancel_transfer
  cancel_transfer-Keeps s v = elim (Option-cases s.sender_cancellation_token) [
    | inl idle ↦ rw idle v
    | inr (token, running) ↦ rw running v
  ]

  pub process_message-Keeps : (payload : MessagePayload) → Keeps (process_message P payload)
  unfolding process_message convert_index
  process_message-Keeps (request_chunk request) s v = request_chunk-Keeps request s v
  process_message-Keeps stop_chunk s v = cancel_transfer-Keeps s v
  process_message-Keeps login_success s v =
      elim (Option-cases (listing P (sender_file P) s.index)) [
        | inl lost ↦ rw lost v
        | inr (shown, made) ↦ rw made (send_event-Keeps _ (record s { state = SenderState.idle }) v)
      ]
  process_message-Keeps _ s v = v
