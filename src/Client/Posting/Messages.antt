-- ===== src/Client/Posting/Messages.antt =====
-- What `Receiver::process_message` of rstr_client/src/client.rs sends into the channel.
use rstr.Prelude.{
  ℕ, ◌+◌, ◌%◌, ◌^◌, inl, inr, Option, none, some, List, [], ◌∷◌, ltb, ◌==◌, get_elem?, arith,
  Bool-cases, Option-cases,
}
use rstr.Prelude.Int.{ℤ, ltb_ℤ}
use rstr.Prelude.Text.{Text}
use rstr.Prelude.Exec.{Outcome-cases, ◌>>=◌, ◌>>◌, modify}
use rstr.Meta.Types.{Chunk, Meta}
use rstr.Meta.Index.{find_entry, mark_received}
use rstr.Meta.Storage.{save}
use rstr.Message.{
  MessagePayload, UserStatus, login_success, transmit_meta, notify_updated, transmit_chunk,
  notify_sender_status,
}
use rstr.Client.Types.{
  Platform, state_eq, ReceiverState, requested_chunk, idle, update_receiver_files,
  logged_in_as_receiver, file_finished_downloading, file_download_progress, sender_connected,
  sender_disconnected,
}
use rstr.Client.Receiver.{
  Receiver, RequestingFile, send_event, ask_meta, check_state, check_states, save_index,
  convert_index, find_first_undownloaded, ask_chunk,
}
use rstr.Client.Chunks.{
  process_message, process_transmit_chunk, process_transmit_meta, process_notify_updated,
  process_login_success, receive_part, check_part, chunk_received, next_chunk, part_received, mark,
  learn_all, writing_task,
}
use rstr.Client.Posting.Receiver.{
  Sends, both, quiet, send_event-Sends, check_state-Sends, check_states-Sends, ask_meta-Sends,
  ask_chunk-Sends, listing-Sends, updated-Sends,
}
use rstr.Client.Posting.Weight.{Tells-mono}

module _ (P : Platform) where
  part_received-Sends :
      (r : RequestingFile P) (new_progress : P.floats.F32)
      → Sends P 2 (part_received P r new_progress)
  unfolding part_received
  part_received-Sends r new_progress s =
      elim (Bool-cases (P.floats.moved new_progress r.progress)) [
        | inl moved ↦ rw moved (
            Tells-mono (λ (s : Receiver P). s.events) 1 2
              (send_event P (file_download_progress new_progress)) (omega arith)
              (send_event-Sends P (file_download_progress new_progress) tt)
              (record s { requesting_chunk = some (record r { progress = new_progress }) }))
        | inr still ↦ rw still (quiet P 2 s.events)
      ]

  next_chunk-Sends : (p : Text) (next : Option ℕ) → Sends P 2 (next_chunk P p next)
  unfolding next_chunk
  next_chunk-Sends p (some n) s =
      Tells-mono (λ (s : Receiver P). s.events) 1 2 (ask_chunk P p n) (omega arith)
        (ask_chunk-Sends P p n) s
  next_chunk-Sends p none s =
      both P 1 1 (send_event P (file_finished_downloading p))
        (λ _. convert_index P >>= λ shown. send_event P (update_receiver_files shown.0 shown.1))
        (send_event-Sends P (file_finished_downloading p) tt) (λ _. updated-Sends P)
        (record s { state = idle })

  chunk_received-Sends : (p : Text) (i : ℕ) → Sends P 2 (chunk_received P p i)
  unfolding chunk_received mark save_index
  chunk_received-Sends p i s = elim (Outcome-cases (mark_received p i s.index).0) [
    | inr (inr crashed) ↦ rw crashed (quiet P 2 s.events)
    | inr (inl (e, failed)) ↦ rw failed (quiet P 2 s.events)
    | inl (u, fine) ↦ elim (Outcome-cases (save P.bincode (mark_received p i s.index).1 s.disk).0) [
      | inr (inr crashed) ↦ rw fine (rw crashed (quiet P 2 s.events))
      | inr (inl (e, failed)) ↦ rw fine (rw failed (quiet P 2 s.events))
      | inl (u', saved) ↦ elim (Option-cases (find_entry (mark_received p i s.index).1 p)) [
        | inl missing ↦ rw fine (rw saved (rw missing (quiet P 2 s.events)))
        | inr (e, found) ↦
            rw fine (rw saved (rw found (next_chunk-Sends p (find_first_undownloaded P e) _)))
      ]
    ]
  ]

  check_part-Sends :
      (r : RequestingFile P) (c : Chunk) (new_progress : P.floats.F32)
      → Sends P 2 (check_part P r c new_progress)
  unfolding check_part
  check_part-Sends r c new_progress s =
      elim (Bool-cases (ltb r.current_offset ((c.offset + c.size) % 2 ^ 64))) [
        | inl more ↦ rw more (part_received-Sends r new_progress s)
        | inr complete ↦ elim (Bool-cases (c.hash == P.hasher.digest r.chunk_hash_writer)) [
          | inl right ↦ rw complete (rw right (chunk_received-Sends r.remote_path r.chunk_index s))
          | inr wrong ↦ rw complete (rw wrong (quiet P 2 s.events))
        ]
      ]

  receive_part-Sends :
      (buffer : List ℕ) (r : RequestingFile P) → Sends P 2 (receive_part P buffer r)
  unfolding receive_part
  receive_part-Sends buffer r s = elim (Option-cases (find_entry s.index r.remote_path)) [
    | inl missing ↦ rw missing (quiet P 2 s.events)
    | inr (e, found) ↦
        elim (Option-cases (
          writing_task s.files e.local_path e.meta.size e.meta.file_modified r.current_offset
            buffer)) [
              | inl refused ↦ rw found (rw refused (quiet P 2 s.events))
              | inr (files, written) ↦ elim (Option-cases (get_elem? e.meta.chunks r.chunk_index)) [
                | inl outside ↦ rw found (rw written (rw outside (quiet P 2 s.events)))
                | inr (c, there) ↦ rw found (rw written (rw there (check_part-Sends _ c _ _)))
              ]
            ]
  ]

  transmit_chunk-Sends : (buffer : List ℕ) → Sends P 2 (process_transmit_chunk P buffer)
  unfolding process_transmit_chunk
  transmit_chunk-Sends buffer s = elim (Bool-cases (state_eq s.state requested_chunk)) [
    | inr other ↦ rw other (quiet P 2 s.events)
    | inl waiting ↦ elim (Option-cases s.requesting_chunk) [
      | inl nothing_asked ↦ rw waiting (rw nothing_asked (quiet P 2 s.events))
      | inr (r, asked) ↦ rw waiting (rw asked (receive_part-Sends buffer r s))
    ]
  ]

  transmit_meta-Sends : (metas : List Meta) → Sends P 2 (process_transmit_meta P metas)
  unfolding process_transmit_meta save_index
  transmit_meta-Sends metas s =
      elim (Outcome-cases (save P.bincode (learn_all P s.index metas) s.disk).0) [
        | inr (inr crashed) ↦ rw crashed (quiet P 2 s.events)
        | inr (inl (e, failed)) ↦ rw failed (quiet P 2 s.events)
        | inl (u, saved) ↦ rw saved (
            listing-Sends P 2
              (λ shown.
                send_event P (update_receiver_files shown.0 shown.1)
                >> modify (λ receiver. record receiver { state = idle }))
              (λ shown.
                both P 1 1 (send_event P (update_receiver_files shown.0 shown.1))
                  (λ _. modify (λ receiver. record receiver { state = idle }))
                  (send_event-Sends P (update_receiver_files shown.0 shown.1) tt)
                  (λ _ s'. quiet P 1 s'.events))
              _)
      ]

  notify_updated-Sends : (last_modified : ℤ) → Sends P 2 (process_notify_updated P last_modified)
  unfolding process_notify_updated
  notify_updated-Sends last_modified s = elim (Bool-cases (ltb_ℤ s.last_updated last_modified)) [
    | inl newer ↦ rw newer (
        Tells-mono (λ (s : Receiver P). s.events) 1 2 (ask_meta P s.last_updated) (omega arith)
          (ask_meta-Sends P s.last_updated) s)
    | inr known ↦ rw known (quiet P 2 s.events)
  ]

  login_success-Sends : Sends P 2 (process_login_success P)
  unfolding process_login_success
  login_success-Sends =
      both P 0 2 (check_state P ReceiverState.initializing)
        (λ _.
          modify (λ receiver. record receiver { state = idle })
          >> (convert_index P >>= λ shown. send_event P (logged_in_as_receiver shown.0 shown.1)))
        (check_state-Sends P ReceiverState.initializing)
        (λ _ s.
          listing-Sends P 2 (λ shown. send_event P (logged_in_as_receiver shown.0 shown.1))
            (λ shown. send_event-Sends P (logged_in_as_receiver shown.0 shown.1) tt)
            (record s { state = idle }))

  pub process_message-Sends : (payload : MessagePayload) → Sends P 2 (process_message P payload)
  unfolding process_message
  process_message-Sends (notify_updated last_modified) s =
      both P 0 2 (check_states P (idle ∷ ReceiverState.initializing ∷ []))
        (λ _. process_notify_updated P last_modified)
        (check_states-Sends P (idle ∷ ReceiverState.initializing ∷ []))
        (λ _. notify_updated-Sends last_modified) s
  process_message-Sends (transmit_meta metas) s =
      both P 0 2 (check_state P idle) (λ _. process_transmit_meta P metas)
        (check_state-Sends P idle) (λ _. transmit_meta-Sends metas) s
  process_message-Sends (transmit_chunk buffer) s =
      both P 0 2 (check_state P requested_chunk) (λ _. process_transmit_chunk P buffer)
        (check_state-Sends P requested_chunk) (λ _. transmit_chunk-Sends buffer) s
  process_message-Sends login_success s = login_success-Sends s
  process_message-Sends (notify_sender_status UserStatus.connected) s =
      Tells-mono (λ (s : Receiver P). s.events) 1 2 (send_event P sender_connected) (omega arith)
        (send_event-Sends P sender_connected tt) s
  process_message-Sends (notify_sender_status UserStatus.disconnected) s =
      Tells-mono (λ (s : Receiver P). s.events) 1 2 (send_event P sender_disconnected) (omega arith)
        (send_event-Sends P sender_disconnected tt) s
  process_message-Sends _ s = quiet P 2 s.events
