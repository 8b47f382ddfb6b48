-- ===== src/Client/Operating.antt =====
-- What the user starts keeps the receiver of rstr_client/src/client.rs sound, and so does a new file
-- the sender's index.
use rstr.Prelude.{ℕ, sym, subst, inl, inr, Option-cases}
use rstr.Prelude.Text.{Text}
use rstr.Prelude.Exec.{Outcome-cases, ◌>>=◌, ◌>>◌, modify, ok_or, unwrap}
use rstr.Meta.Types.{MetaIndex}
use rstr.Meta.Index.{find_entry, change_local, get_last_updated}
use rstr.Meta.Received.{IsValid, change_local-IsValid}
use rstr.Meta.Storage.{Disk, save}
use rstr.Message.{MessagePayload, stop_chunk}
use rstr.Client.Types.{Platform, requested_chunk, idle, update_receiver_files, file_is_downloaded}
use rstr.Client.Receiver.{
  send_event, send_payload, check_state, save_index, convert_index, find_first_undownloaded,
  ask_chunk, request_new_meta, log_in, request_file, resume_file, stop_transmition, move_file, find,
  started,
}
use rstr.Client.Requests.{ask_chunk-keeps}
use rstr.Client.Keeping.{
  Keeps, then-Keeps, send_event-Keeps, check_state-Keeps, convert_index-Keeps, ask_meta-Keeps,
}

module _ (P : Platform) (D : Disk → Type 0)
    (saves : (index : MetaIndex) (disk : Disk)
      → IsValid index
      → D disk
      → D (save P.bincode index disk).1) where
  send_payload-Keeps : (m : MessagePayload) → Keeps P D saves (send_payload P m)
  unfolding send_payload
  send_payload-Keeps m = send_event-Keeps P D saves _

  pub request_new_meta-Keeps : Keeps P D saves (request_new_meta P)
  unfolding request_new_meta
  request_new_meta-Keeps s v = ask_meta-Keeps P D saves (get_last_updated s.index) s v

  pub log_in-Keeps : (username password : Text) → Keeps P D saves (log_in P username password)
  unfolding log_in
  log_in-Keeps username password = send_payload-Keeps _

  ask_chunk-Keeps : (p : Text) (i : ℕ) → Keeps P D saves (ask_chunk P p i)
  ask_chunk-Keeps p i s v =
      let kept = ask_chunk-keeps P p i s in
      (subst IsValid (sym kept.0) v.0, subst D (sym kept.2) v.1)

  asked_then_started :
      (p : Text) (i size : ℕ) → Keeps P D saves (ask_chunk P p i >> send_event P (started P p size))
  asked_then_started p i size =
      then-Keeps P D saves (ask_chunk P p i) (λ _. send_event P (started P p size))
        (ask_chunk-Keeps p i) (λ _. send_event-Keeps P D saves (started P p size))

  pub resume_file-Keeps : (p : Text) → Keeps P D saves (resume_file P p)
  unfolding resume_file
  resume_file-Keeps p =
      then-Keeps P D saves (check_state P idle)
        (λ _. find P p >>= λ e. ok_or (find_first_undownloaded P e) file_is_downloaded >>= λ n.
          ask_chunk P p n >> send_event P (started P p e.meta.size))
        (check_state-Keeps P D saves idle)
        (λ _ s v. elim (Option-cases (find_entry s.index p)) [
          | inl missing ↦ rw missing v
          | inr (e, found) ↦ rw found (elim (Option-cases (find_first_undownloaded P e)) [
            | inl complete ↦ rw complete v
            | inr (n, left) ↦ rw left (asked_then_started p n e.meta.size s v)
          ])
        ])

  pub request_file-Keeps : (p local_path : Text) → Keeps P D saves (request_file P p local_path)
  unfolding request_file move_file save_index
  request_file-Keeps p local_path =
      then-Keeps P D saves (check_state P idle)
        (λ _. find P p >>= λ e.
          unwrap (move_file P p local_path)
          >> (unwrap (save_index P) >> (ask_chunk P p 0 >> send_event P (started P p e.meta.size))))
        (check_state-Keeps P D saves idle)
        (λ _ s v.
          let moved_v : IsValid (change_local p local_path s.index).1 =
            change_local-IsValid s.index p local_path v.0 in
          let stored : D (save P.bincode (change_local p local_path s.index).1 s.disk).1 =
            saves (change_local p local_path s.index).1 s.disk moved_v v.1 in
          elim (Option-cases (find_entry s.index p)) [
            | inl missing ↦ rw missing v
            | inr (e, found) ↦
                rw found (elim (Outcome-cases (change_local p local_path s.index).0) [
                  | inr (inr crashed) ↦ rw crashed (moved_v, v.1)
                  | inr (inl (x, failed)) ↦ rw failed (moved_v, v.1)
                  | inl (u, moved) ↦
                      rw moved
                        (elim (Outcome-cases
                          (save P.bincode (change_local p local_path s.index).1 s.disk).0) [
                            | inr (inr crashed) ↦ rw crashed (moved_v, stored)
                            | inr (inl (x, failed)) ↦ rw failed (moved_v, stored)
                            | inl (u', saved) ↦
                                rw saved (asked_then_started p 0 e.meta.size _ (moved_v, stored))
                          ])
                ])
          ])

  pub stop_transmition-Keeps : Keeps P D saves (stop_transmition P)
  unfolding stop_transmition
  stop_transmition-Keeps =
      then-Keeps P D saves (check_state P requested_chunk)
        (λ _.
          send_payload P stop_chunk
          >> (modify (λ r. record r { state = idle })
              >> (convert_index P >>= λ shown.
                  send_event P (update_receiver_files shown.0 shown.1))))
        (check_state-Keeps P D saves requested_chunk)
        (λ _.
          then-Keeps P D saves (send_payload P stop_chunk)
            (λ _.
              modify (λ r. record r { state = idle })
              >> (convert_index P >>= λ shown.
                  send_event P (update_receiver_files shown.0 shown.1)))
            (send_payload-Keeps stop_chunk)
            (λ _ s v.
              then-Keeps P D saves (convert_index P)
                (λ shown. send_event P (update_receiver_files shown.0 shown.1))
                (convert_index-Keeps P D saves) (λ shown. send_event-Keeps P D saves _)
                (record s { state = idle }) v))
