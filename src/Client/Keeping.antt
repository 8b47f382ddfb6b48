-- ===== src/Client/Keeping.antt =====
-- The methods of `Receiver` in rstr_client/src/client.rs keep the index valid, and with it a property
-- of the data directory that saving a valid index keeps.
use rstr.Prelude.{
  ℕ, ◌+◌, ◌%◌, ◌^◌, sym, inl, inr, Option, List, [], ◌∷◌, ltb, ◌==◌, get_elem?, Bool-cases,
  Option-cases, subst,
}
use rstr.Prelude.Int.{ℤ, ltb_ℤ}
use rstr.Prelude.Text.{Text}
use rstr.Prelude.Exec.{Outcome-cases, ◌>>=◌, ◌>>◌, modify}
use rstr.Meta.Types.{Chunk, Meta, MetaIndex}
use rstr.Meta.Index.{find_entry, mark_received, add_for_meta}
use rstr.Meta.Received.{IsValid, add_for_meta-IsValid, mark_received-IsValid}
use rstr.Meta.Storage.{Disk, save}
use rstr.Message.{
  MessagePayload, UserStatus, login_success, transmit_meta, notify_updated, transmit_chunk,
  notify_sender_status,
}
use rstr.Client.Types.{
  Platform, EventMessage, state_eq, ReceiverState, requested_chunk, idle, update_receiver_files,
  logged_in_as_receiver,
}
use rstr.Client.Listing.{listing, receiver_file}
use rstr.Client.Receiver.{
  Receiver, RequestingFile, Step, send_event, send_payload, ask_meta, check_state, check_states,
  save_index, convert_index, find_first_undownloaded,
}
use rstr.Client.Chunks.{
  process_message, process_transmit_chunk, process_transmit_meta, process_notify_updated,
  process_login_success, receive_part, check_part, chunk_received, next_chunk, part_received, mark,
  learn_all, writing_task,
}
use rstr.Client.Completing.{next_chunk-keeps}

module _ (P : Platform) (D : Disk → Type 0)
    (saves : (index : MetaIndex) (disk : Disk)
      → IsValid index
      → D disk
      → D (save P.bincode index disk).1) where
  abbrev pub Sound : Receiver P → Type 0
  Sound s = IsValid s.index × D s.disk

  -- A step that keeps the receiver sound, whatever it returns.
  abbrev pub Keeps : {A : Type 0} → Step P A → Type 0
  Keeps m = (s : Receiver P) → Sound s → Sound (m s).1

  pub then-Keeps :
      {A B : Type 0} (m : Step P A) (f : A → Step P B)
      → Keeps m
      → ((a : A) → Keeps (f a))
      → Keeps (m >>= f)
  then-Keeps m f hm hf s v = elim (Outcome-cases (m s).0) [
    | inl (a, fine) ↦ rw fine (hf a (m s).1 (hm s v))
    | inr (inl (e, failed)) ↦ rw failed (hm s v)
    | inr (inr crashed) ↦ rw crashed (hm s v)
  ]

  learn_all-IsValid :
      (index : MetaIndex) (metas : List Meta) → IsValid index → IsValid (learn_all P index metas)
  unfolding learn_all
  learn_all-IsValid index [] v = v
  learn_all-IsValid index (m ∷ metas) v =
      learn_all-IsValid (add_for_meta index m) metas (add_for_meta-IsValid index m v)

  pub send_event-Keeps : (m : EventMessage P.floats.F32) → Keeps (send_event P m)
  unfolding send_event
  send_event-Keeps m s v = elim (Bool-cases s.stopped) [
    | inl gone ↦ rw gone v
    | inr running ↦ rw running v
  ]

  pub next_chunk-Keeps : (p : Text) (next : Option ℕ) → Keeps (next_chunk P p next)
  next_chunk-Keeps p next s v =
      let kept = next_chunk-keeps P p next s in
      (subst IsValid (sym kept.0) v.0, subst D (sym kept.2) v.1)

  pub convert_index-Keeps : Keeps (convert_index P)
  unfolding convert_index
  convert_index-Keeps s v = elim (Option-cases (listing P (receiver_file P) s.index)) [
    | inl lost ↦ rw lost v
    | inr (shown, made) ↦ rw made v
  ]

  pub check_state-Keeps : (state : ReceiverState) → Keeps (check_state P state)
  unfolding check_state
  check_state-Keeps state s v = elim (Bool-cases (state_eq s.state state)) [
    | inl same ↦ rw same v
    | inr other ↦ rw other v
  ]

  pub check_states-Keeps : (states : List ReceiverState) → Keeps (check_states P states)
  unfolding check_states
  check_states-Keeps [] s v = v
  check_states-Keeps (state ∷ states) s v = elim (Bool-cases (state_eq s.state state)) [
    | inl same ↦ rw same v
    | inr other ↦ rw other (check_states-Keeps states s v)
  ]

  pub chunk_received-Keeps : (p : Text) (i : ℕ) → Keeps (chunk_received P p i)
  unfolding chunk_received mark save_index
  chunk_received-Keeps p i s v =
      let marked : IsValid (mark_received p i s.index).1 = mark_received-IsValid s.index p i v.0 in
      let stored : D (save P.bincode (mark_received p i s.index).1 s.disk).1 =
        saves (mark_received p i s.index).1 s.disk marked v.1 in
      elim (Outcome-cases (mark_received p i s.index).0) [
        | inr (inr crashed) ↦ rw crashed (marked, v.1)
        | inr (inl (e, failed)) ↦ rw failed (marked, v.1)
        | inl (u, fine) ↦
            elim (Outcome-cases (save P.bincode (mark_received p i s.index).1 s.disk).0) [
              | inr (inr crashed) ↦ rw fine (rw crashed (marked, stored))
              | inr (inl (e, failed)) ↦ rw fine (rw failed (marked, stored))
              | inl (u', saved) ↦ elim (Option-cases (find_entry (mark_received p i s.index).1 p)) [
                | inl missing ↦ rw fine (rw saved (rw missing (marked, stored)))
                | inr (e, found) ↦ rw fine (
                    rw saved (
                      rw found
                        (next_chunk-Keeps p (find_first_undownloaded P e) _ (marked, stored))))
              ]
            ]
      ]

  pub part_received-Keeps :
      (r : RequestingFile P) (new_progress : P.floats.F32) → Keeps (part_received P r new_progress)
  unfolding part_received
  part_received-Keeps r new_progress s v =
      elim (Bool-cases (P.floats.moved new_progress r.progress)) [
        | inl moved ↦ rw moved (send_event-Keeps _ _ v)
        | inr still ↦ rw still v
      ]

  pub check_part-Keeps :
      (r : RequestingFile P) (c : Chunk) (new_progress : P.floats.F32)
      → Keeps (check_part P r c new_progress)
  unfolding check_part
  check_part-Keeps r c new_progress s v =
      elim (Bool-cases (ltb r.current_offset ((c.offset + c.size) % 2 ^ 64))) [
        | inl more ↦ rw more (part_received-Keeps r new_progress s v)
        | inr complete ↦ elim (Bool-cases (c.hash == P.hasher.digest r.chunk_hash_writer)) [
          | inl right ↦
              rw complete (rw right (chunk_received-Keeps r.remote_path r.chunk_index s v))
          | inr wrong ↦ rw complete (rw wrong v)
        ]
      ]

  pub receive_part-Keeps :
      (buffer : List ℕ) (r : RequestingFile P) → Keeps (receive_part P buffer r)
  unfolding receive_part
  receive_part-Keeps buffer r s v = elim (Option-cases (find_entry s.index r.remote_path)) [
    | inl missing ↦ rw missing v
    | inr (e, found) ↦
        elim (Option-cases (
          writing_task s.files e.local_path e.meta.size e.meta.file_modified r.current_offset
            buffer)) [
              | inl refused ↦ rw found (rw refused v)
              | inr (files, written) ↦ elim (Option-cases (get_elem? e.meta.chunks r.chunk_index)) [
                | inl outside ↦ rw found (rw written (rw outside v))
                | inr (c, there) ↦ rw found (rw written (rw there (check_part-Keeps _ c _ _ v)))
              ]
            ]
  ]

  pub transmit_chunk-Keeps : (buffer : List ℕ) → Keeps (process_transmit_chunk P buffer)
  unfolding process_transmit_chunk
  transmit_chunk-Keeps buffer s v = elim (Bool-cases (state_eq s.state requested_chunk)) [
    | inr other ↦ rw other v
    | inl waiting ↦ elim (Option-cases s.requesting_chunk) [
      | inl nothing ↦ rw waiting (rw nothing v)
      | inr (r, asked) ↦ rw waiting (rw asked (receive_part-Keeps buffer r s v))
    ]
  ]

  pub transmit_meta-Keeps : (metas : List Meta) → Keeps (process_transmit_meta P metas)
  unfolding process_transmit_meta save_index
  transmit_meta-Keeps metas s v =
      let learned : IsValid (learn_all P s.index metas) = learn_all-IsValid s.index metas v.0 in
      let stored : D (save P.bincode (learn_all P s.index metas) s.disk).1 =
        saves (learn_all P s.index metas) s.disk learned v.1 in
      elim (Outcome-cases (save P.bincode (learn_all P s.index metas) s.disk).0) [
        | inr (inr crashed) ↦ rw crashed (learned, stored)
        | inr (inl (e, failed)) ↦ rw failed (learned, stored)
        | inl (u, saved) ↦ rw saved (
            then-Keeps (convert_index P)
              (λ shown.
                send_event P (update_receiver_files shown.0 shown.1)
                >> modify (λ receiver. record receiver { state = idle }))
              convert_index-Keeps
              (λ shown.
                then-Keeps (send_event P (update_receiver_files shown.0 shown.1))
                  (λ _. modify (λ receiver. record receiver { state = idle })) (send_event-Keeps _)
                  (λ _ s' v'. v'))
              _ (learned, stored))
      ]

  pub ask_meta-Keeps : (after : ℤ) → Keeps (ask_meta P after)
  unfolding ask_meta send_payload
  ask_meta-Keeps after =
      then-Keeps (check_state P idle) (λ _. send_event P _) (check_state-Keeps idle)
        (λ _. send_event-Keeps _)

  pub notify_updated-Keeps : (last_modified : ℤ) → Keeps (process_notify_updated P last_modified)
  unfolding process_notify_updated
  notify_updated-Keeps last_modified s v = elim (Bool-cases (ltb_ℤ s.last_updated last_modified)) [
    | inl newer ↦ rw newer (ask_meta-Keeps s.last_updated s v)
    | inr known ↦ rw known v
  ]

  pub login_success-Keeps : Keeps (process_login_success P)
  unfolding process_login_success
  login_success-Keeps =
      then-Keeps (check_state P ReceiverState.initializing)
        (λ _.
          modify (λ receiver. record receiver { state = idle })
          >> (convert_index P >>= λ shown. send_event P (logged_in_as_receiver shown.0 shown.1)))
        (check_state-Keeps ReceiverState.initializing)
        (λ _ s v.
          then-Keeps (convert_index P)
            (λ shown. send_event P (logged_in_as_receiver shown.0 shown.1)) convert_index-Keeps
            (λ shown. send_event-Keeps _) (record s { state = idle }) v)

  pub process_message-Keeps : (payload : MessagePayload) → Keeps (process_message P payload)
  unfolding process_message
  process_message-Keeps (notify_updated last_modified) s v =
      then-Keeps (check_states P (idle ∷ ReceiverState.initializing ∷ []))
        (λ _. process_notify_updated P last_modified)
        (check_states-Keeps (idle ∷ ReceiverState.initializing ∷ []))
        (λ _. notify_updated-Keeps last_modified) s v
  process_message-Keeps (transmit_meta metas) s v =
      then-Keeps (check_state P idle) (λ _. process_transmit_meta P metas) (check_state-Keeps idle)
        (λ _. transmit_meta-Keeps metas) s v
  process_message-Keeps (transmit_chunk buffer) s v =
      then-Keeps (check_state P requested_chunk) (λ _. process_transmit_chunk P buffer)
        (check_state-Keeps requested_chunk) (λ _. transmit_chunk-Keeps buffer) s v
  process_message-Keeps login_success s v = login_success-Keeps s v
  process_message-Keeps (notify_sender_status UserStatus.connected) s v = send_event-Keeps _ s v
  process_message-Keeps (notify_sender_status UserStatus.disconnected) s v = send_event-Keeps _ s v
  process_message-Keeps _ s v = v
