-- ===== src/App/Soundness.antt =====
-- What holds of the client program's indices whatever happens (rstr_client/src/main.rs): the one that
-- is in use is valid, and so are those that the next logins would load.
use rstr.Prelude.{◌≡◌, subst, inl, inr, none, []}
use rstr.Prelude.Exec.{Exec, Outcome-cases, ◌>>=◌}
use rstr.Meta.Storage.{Disk}
use rstr.Meta.Reloading.{HoldsValid, save-HoldsValid}
use rstr.Client.Types.{Platform}
use rstr.Client.Receiver.{Receiver, Step}
use rstr.Client.Sender.{Sender, SenderStep}
use rstr.Client.Keeping as Receiving
use rstr.Client.Offering as Sending
use rstr.App.State.{
  ClientType, App, ClientType-cases, put_receiver, put_sender, for_receiver, for_sender,
}

module _ (P : Platform) (nothing : P.bincode.decode [] ≡ none) where
  abbrev pub Held : Disk → Type 0
  Held disk = HoldsValid P.bincode disk

  abbrev pub ReceiverSound : Receiver P → Type 0
  ReceiverSound r = Receiving.Sound P Held (save-HoldsValid P.bincode nothing) r

  abbrev pub SenderSound : Sender P → Type 0
  SenderSound s = Sending.Sound P Held (save-HoldsValid P.bincode nothing) s

  abbrev pub ClientSound : ClientType P → Type 0
  ClientSound ClientType.none = Unit
  ClientSound (ClientType.receiver r) = ReceiverSound r
  ClientSound (ClientType.sender s) = SenderSound s

  abbrev pub Sound : App P → Type 0
  Sound app = ClientSound app.client × Held app.receiver_dir × Held app.sender_dir

  -- A step that keeps the program sound, whatever it returns.
  abbrev pub Keeps : {E A : Type 0} → Exec E (App P) A → Type 0
  Keeps m = (app : App P) → Sound app → Sound (m app).1

  pub then-Keeps :
      {E A B : Type 0} (m : Exec E (App P) A) (f : A → Exec E (App P) B)
      → Keeps m
      → ((a : A) → Keeps (f a))
      → Keeps (m >>= f)
  then-Keeps m f hm hf app v = elim (Outcome-cases (m app).0) [
    | inl (a, fine) ↦ rw fine (hf a (m app).1 (hm app v))
    | inr (inl (e, left)) ↦ rw left (hm app v)
    | inr (inr crashed) ↦ rw crashed (hm app v)
  ]

  abbrev ReceiverKeeps : Step P (Unit {0}) → Type 0
  ReceiverKeeps m = Receiving.Keeps P Held (save-HoldsValid P.bincode nothing) m

  abbrev SenderKeeps : SenderStep P (Unit {0}) → Type 0
  SenderKeeps m = Sending.Keeps P Held (save-HoldsValid P.bincode nothing) m

  pub for_receiver-Keeps : (m : Step P (Unit {0})) → ReceiverKeeps m → Keeps (for_receiver P m)
  unfolding for_receiver put_receiver
  for_receiver-Keeps m h app v = elim (ClientType-cases P app.client) [
    | inl nobody ↦ rw nobody (tt, v.1, v.2)
    | inr (inr (s, sending)) ↦ rw sending (subst ClientSound sending v.0, v.1, v.2)
    | inr (inl (r, receiving)) ↦
        let after : ReceiverSound (m (record r { events = [] })).1 =
          h (record r { events = [] }) (subst ClientSound receiving v.0) in
        rw receiving (after, after.1, v.2)
  ]

  pub for_sender-Keeps : (m : SenderStep P (Unit {0})) → SenderKeeps m → Keeps (for_sender P m)
  unfolding for_sender put_sender
  for_sender-Keeps m h app v = elim (ClientType-cases P app.client) [
    | inl nobody ↦ rw nobody (tt, v.1, v.2)
    | inr (inl (r, receiving)) ↦ rw receiving (subst ClientSound receiving v.0, v.1, v.2)
    | inr (inr (s, sending)) ↦
        let after : SenderSound (m (record s { events = [] })).1 =
          h (record s { events = [] }) (subst ClientSound sending v.0) in
        rw sending (after, v.1, after.1)
  ]
