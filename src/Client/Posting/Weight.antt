-- ===== src/Client/Posting/Weight.antt =====
-- A measure of the events of rstr_client/src/client.rs, and the methods that send little.
use rstr.Prelude.{
  ℕ, ◌+◌, ◌≤◌, ◌≡◌, sym, ap, ◌∙◌, inl, inr, List, [], ◌∷◌, ◌++◌, arith, append_assoc, append-nil,
  All, All-append,
}
use rstr.Prelude.Exec.{Exec, Outcome-cases, ◌>>=◌}
use rstr.Client.Types.{
  EventMessage, process_message, log_in_as_receiver, log_in_as_sender, logged_in_as_receiver,
  meta_created, file_requested, file_resumed, download_stopped,
}

module _ {F32 : Type 0} where
  -- One more than what the handling of the event can put into the channel.
  abbrev pub weight : EventMessage F32 → ℕ
  weight (process_message m) = 3
  weight log_in_as_receiver = 2
  weight log_in_as_sender = 2
  weight (logged_in_as_receiver dirs files) = 2
  weight (meta_created entry) = 3
  weight (file_requested remote_path local_path) = 3
  weight (file_resumed remote_path) = 3
  weight download_stopped = 3
  weight _ = 1

  abbrev pub total : List (EventMessage F32) → ℕ
  total [] = 0
  total (e ∷ events) = weight e + total events

  -- An entry that comes from `create_meta`.
  abbrev pub IsFresh : EventMessage F32 → Type 0
  IsFresh (meta_created entry) = entry.received_chunks ≡ []
  IsFresh _ = Unit

  pub total-append : (xs ys : List (EventMessage F32)) → total (xs ++ ys) ≡ total xs + total ys
  total-append [] ys = omega arith
  total-append (x ∷ xs) ys = omega (arith, total-append xs ys)

  -- What was sent between two states of the channel.
  abbrev pub Posts : ℕ → List (EventMessage F32) → List (EventMessage F32) → Type 0
  Posts k before after =
      (news : List (EventMessage F32)) × (after ≡ before ++ news)
      × (total news ≤ k)
      × All IsFresh news

  pub nothing :
      (k : ℕ) (before after : List (EventMessage F32)) → after ≡ before → Posts k before after
  nothing k before after e = ([], e ∙ sym (append-nil before), omega arith, tt)

  pub Posts-trans :
      (j k : ℕ) (a b c : List (EventMessage F32)) → Posts j a b → Posts k b c → Posts (j + k) a c
  Posts-trans j k a b c p q = (
    p.0 ++ q.0,
    q.1 ∙ ap (λ l. l ++ q.0) p.1 ∙ append_assoc a p.0 q.0,
    omega (arith, total-append p.0 q.0, p.2, q.2),
    All-append IsFresh p.0 q.0 p.3 q.3,
  )

-- The events that a state of the receiver or of the sender has sent.
module _ {E S F32 : Type 0} (events : S → List (EventMessage F32)) where
  -- A method that sends at most this much.
  abbrev pub Tells : {A : Type 0} → ℕ → Exec E S A → Type 0
  Tells k m = (s : S) → Posts k (events s) (events (m s).1)

  pub Tells-mono : {A : Type 0} (j k : ℕ) (m : Exec E S A) → j ≤ k → Tells j m → Tells k m
  Tells-mono j k m le h s = ((h s).0, (h s).1, omega (arith, (h s).2), (h s).3)

  pub then-Tells :
      {A B : Type 0} (j k : ℕ) (m : Exec E S A) (f : A → Exec E S B)
      → Tells j m
      → ((a : A) → Tells k (f a))
      → Tells (j + k) (m >>= f)
  then-Tells j k m f hm hf s = elim (Outcome-cases (m s).0) [
    | inl (a, fine) ↦ rw fine (Posts-trans j k _ _ _ (hm s) (hf a (m s).1))
    | inr (inl (e, failed)) ↦ rw failed (Tells-mono j (j + k) m (omega arith) hm s)
    | inr (inr crashed) ↦ rw crashed (Tells-mono j (j + k) m (omega arith) hm s)
  ]
