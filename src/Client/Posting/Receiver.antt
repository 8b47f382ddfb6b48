-- ===== src/Client/Posting/Receiver.antt =====
-- What each method of `Receiver` in rstr_client/src/client.rs sends into the channel.
use rstr.Prelude.{
  ℕ, ◌+◌, refl, inl, inr, some, List, [], ◌∷◌, get_elem?, arith, Bool-cases, Option-cases,
}
use rstr.Prelude.Int.{ℤ}
use rstr.Prelude.Text.{Text}
use rstr.Prelude.Exec.{panic, Outcome-cases, ◌>>=◌, ◌>>◌, modify, ok_or, unwrap}
use rstr.Meta.Index.{find_entry, change_local, get_last_updated}
use rstr.Meta.Storage.{save}
use rstr.Message.{MessagePayload, message, stop_chunk, request_meta, request_chunk}
use rstr.Client.Types.{
  Platform, EventMessage, state_eq, ReceiverState, requested_chunk, idle, update_receiver_files,
  send_message, Directory, ReceiverFile, file_is_downloaded,
}
use rstr.Client.Listing.{listing, receiver_file}
use rstr.Client.Receiver.{
  Receiver, Step, send_event, send_payload, ask_meta, check_state, check_states, save_index,
  convert_index, find_first_undownloaded, ask_chunk, request_new_meta, log_in, request_file,
  resume_file, stop_transmition, calculate_downloaded, move_file, find, started,
}
use rstr.Client.Posting.Weight.{weight, IsFresh, Posts, nothing, Tells, Tells-mono, then-Tells}

module _ (P : Platform) where
  abbrev pub Sends : {A : Type 0} → ℕ → Step P A → Type 0
  Sends k m = Tells (λ (s : Receiver P). s.events) k m

  abbrev pub both :
      {A B : Type 0} (j k : ℕ) (m : Step P A) (f : A → Step P B)
      → Sends j m
      → ((a : A) → Sends k (f a))
      → Sends (j + k) (m >>= f)
  both j k m f hm hf = then-Tells (λ (s : Receiver P). s.events) j k m f hm hf

  abbrev pub quiet : (k : ℕ) (events : List (EventMessage P.floats.F32)) → Posts k events events
  quiet k events = nothing k events events refl

  pub send_event-Sends :
      (m : EventMessage P.floats.F32) → IsFresh m → Sends (weight m) (send_event P m)
  unfolding send_event
  send_event-Sends m fresh s = elim (Bool-cases s.stopped) [
    | inl gone ↦ rw gone (quiet (weight m) s.events)
    | inr running ↦ rw running (m ∷ [], refl, omega arith, (fresh, tt))
  ]

  send_payload-Sends : (m : MessagePayload) → Sends 1 (send_payload P m)
  unfolding send_payload
  send_payload-Sends m = send_event-Sends (send_message (message m)) tt

  pub check_state-Sends : (state : ReceiverState) → Sends 0 (check_state P state)
  unfolding check_state
  check_state-Sends state s = elim (Bool-cases (state_eq s.state state)) [
    | inl same ↦ rw same (quiet 0 s.events)
    | inr other ↦ rw other (quiet 0 s.events)
  ]

  pub check_states-Sends : (states : List ReceiverState) → Sends 0 (check_states P states)
  unfolding check_states
  check_states-Sends [] s = quiet 0 s.events
  check_states-Sends (state ∷ states) s = elim (Bool-cases (state_eq s.state state)) [
    | inl same ↦ rw same (quiet 0 s.events)
    | inr other ↦ rw other (check_states-Sends states s)
  ]

  convert_index-Sends : Sends 0 (convert_index P)
  unfolding convert_index
  convert_index-Sends s = elim (Option-cases (listing P (receiver_file P) s.index)) [
    | inl lost ↦ rw lost (quiet 0 s.events)
    | inr (shown, made) ↦ rw made (quiet 0 s.events)
  ]

  pub ask_meta-Sends : (after : ℤ) → Sends 1 (ask_meta P after)
  unfolding ask_meta
  ask_meta-Sends after =
      both 0 1 (check_state P idle) (λ _. send_payload P (request_meta after))
        (check_state-Sends idle) (λ _. send_payload-Sends (request_meta after))

  pub request_new_meta-Sends : Sends 1 (request_new_meta P)
  unfolding request_new_meta
  request_new_meta-Sends s = ask_meta-Sends (get_last_updated s.index) s

  pub log_in-Sends : (username password : Text) → Sends 1 (log_in P username password)
  unfolding log_in
  log_in-Sends username password = send_payload-Sends _

  pub ask_chunk-Sends : (p : Text) (i : ℕ) → Sends 1 (ask_chunk P p i)
  unfolding ask_chunk
  ask_chunk-Sends p i s = elim (Option-cases (find_entry s.index p)) [
    | inl missing ↦ rw missing (quiet 1 s.events)
    | inr (e, found) ↦ elim (Option-cases (get_elem? e.meta.chunks i)) [
      | inl none_there ↦ rw found (rw none_there (quiet 1 s.events))
      | inr (c, there) ↦
          let asking : Sends 1
              (send_payload P (request_chunk (record { path = p; index = i; hash = c.hash }))) =
            send_payload-Sends _ in
          rw found (
            rw there (elim (Option-cases (calculate_downloaded P e)) [
              | inl lost ↦ rw lost (
                  both 1 0
                    (send_payload P (request_chunk (record { path = p; index = i; hash = c.hash })))
                    (λ _ s'. (panic, s')) asking (λ _ s'. quiet 0 s'.events) s)
              | inr (n, known) ↦ rw known (
                  both 1 0
                    (send_payload P (request_chunk (record { path = p; index = i; hash = c.hash })))
                    (λ _. modify (λ r. record r {
                      requesting_chunk = some (record {
                        remote_path = p;
                        total_downloaded = n;
                        progress = P.floats.zero_f32;
                        chunk_index = i;
                        current_offset = c.offset;
                        chunk_hash_writer = P.hasher.new;
                      });
                      state = requested_chunk;
                    }))
                    asking (λ _ s'. quiet 0 s'.events) s)
            ]))
    ]
  ]

  -- A request that goes out is told to the window.
  asked_then_started :
      (p : Text) (i size : ℕ) → Sends 2 (ask_chunk P p i >> send_event P (started P p size))
  asked_then_started p i size =
      both 1 1 (ask_chunk P p i) (λ _. send_event P (started P p size)) (ask_chunk-Sends p i)
        (λ _. send_event-Sends (started P p size) tt)

  pub resume_file-Sends : (p : Text) → Sends 2 (resume_file P p)
  unfolding resume_file
  resume_file-Sends p =
      both 0 2 (check_state P idle)
        (λ _. find P p >>= λ e. ok_or (find_first_undownloaded P e) file_is_downloaded >>= λ n.
          ask_chunk P p n >> send_event P (started P p e.meta.size))
        (check_state-Sends idle)
        (λ _ s. elim (Option-cases (find_entry s.index p)) [
          | inl missing ↦ rw missing (quiet 2 s.events)
          | inr (e, found) ↦ rw found (elim (Option-cases (find_first_undownloaded P e)) [
            | inl complete ↦ rw complete (quiet 2 s.events)
            | inr (n, left) ↦ rw left (asked_then_started p n e.meta.size s)
          ])
        ])

  pub request_file-Sends : (p local_path : Text) → Sends 2 (request_file P p local_path)
  unfolding request_file move_file save_index
  request_file-Sends p local_path =
      both 0 2 (check_state P idle)
        (λ _. find P p >>= λ e.
          unwrap (move_file P p local_path)
          >> (unwrap (save_index P) >> (ask_chunk P p 0 >> send_event P (started P p e.meta.size))))
        (check_state-Sends idle)
        (λ _ s. elim (Option-cases (find_entry s.index p)) [
          | inl missing ↦ rw missing (quiet 2 s.events)
          | inr (e, found) ↦ rw found (elim (Outcome-cases (change_local p local_path s.index).0) [
            | inr (inr crashed) ↦ rw crashed (quiet 2 s.events)
            | inr (inl (x, failed)) ↦ rw failed (quiet 2 s.events)
            | inl (u, moved) ↦
                rw moved
                  (elim (Outcome-cases
                    (save P.bincode (change_local p local_path s.index).1 s.disk).0) [
                      | inr (inr crashed) ↦ rw crashed (quiet 2 s.events)
                      | inr (inl (x, failed)) ↦ rw failed (quiet 2 s.events)
                      | inl (u', saved) ↦ rw saved (asked_then_started p 0 e.meta.size _)
                    ])
          ])
        ])

  -- The new listing goes to the window.
  pub listing-Sends :
      {B : Type 0} (k : ℕ) (f : List Directory × List ReceiverFile → Step P B)
      → ((shown : List Directory × List ReceiverFile) → Sends k (f shown))
      → Sends k (convert_index P >>= f)
  listing-Sends k f h =
      Tells-mono (λ (s : Receiver P). s.events) (0 + k) k (convert_index P >>= f) (omega arith)
        (both 0 k (convert_index P) f convert_index-Sends h)

  pub updated-Sends :
      Sends 1 (convert_index P >>= λ shown. send_event P (update_receiver_files shown.0 shown.1))
  updated-Sends =
      listing-Sends 1 (λ shown. send_event P (update_receiver_files shown.0 shown.1))
        (λ shown. send_event-Sends (update_receiver_files shown.0 shown.1) tt)

  pub stop_transmition-Sends : Sends 2 (stop_transmition P)
  unfolding stop_transmition
  stop_transmition-Sends =
      both 0 2 (check_state P requested_chunk)
        (λ _.
          send_payload P stop_chunk
          >> (modify (λ r. record r { state = idle })
              >> (convert_index P >>= λ shown.
                  send_event P (update_receiver_files shown.0 shown.1))))
        (check_state-Sends requested_chunk)
        (λ _.
          both 1 1 (send_payload P stop_chunk)
            (λ _.
              modify (λ r. record r { state = idle })
              >> (convert_index P >>= λ shown.
                  send_event P (update_receiver_files shown.0 shown.1)))
            (send_payload-Sends stop_chunk) (λ _ s. updated-Sends (record s { state = idle })))
