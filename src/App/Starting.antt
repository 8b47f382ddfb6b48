-- ===== src/App/Starting.antt =====
-- What a login that begins the receiver or the sender in rstr_client/src/main.rs keeps valid.
use rstr.Prelude.{arith, ◌≡◌, sym, subst, inl, inr, none, some, [], Option-cases}
use rstr.Prelude.Text.{ascii}
use rstr.Prelude.Exec.{Outcome, ok, err, panic, Outcome-cases}
use rstr.Meta.Received.{IsValid}
use rstr.Meta.Storage.{Disk, load}
use rstr.Meta.Reloading.{HoldsValid, save-HoldsValid}
use rstr.Client.Types.{Platform, ClientHandlerError}
use rstr.Client.Receiver
use rstr.Client.Receiver.{Receiver, Files}
use rstr.Client.Sender
use rstr.Client.Sender.{Sender}
use rstr.Client.Operating
use rstr.Client.Offering as Sending
use rstr.App.State.{App, put_receiver, put_sender}
use rstr.App.Dispatch.{
  receiver_key, sender_key, start_receiver, start_sender, logged_receiver, logged_sender, failed,
}
use rstr.App.Soundness.{Held, ReceiverSound, SenderSound, Sound, Keeps}

module _ (P : Platform) (nothing : P.bincode.decode [] ≡ none) where
  new_receiver-Sound :
      (disk : Disk) (files : Files) (r : Receiver P)
      → Receiver.new P disk files ≡ some r
      → Held P nothing disk
      → ReceiverSound P nothing r
  unfolding Receiver.new
  new_receiver-Sound disk files r h held = elim (Outcome-cases (load P.bincode disk)) [
    | inl (index, loaded) ↦
        let same : r.index ≡ index = ground (arith, loaded) in
        let on : r.disk ≡ disk = ground (arith, loaded) in
        (subst IsValid (sym same) (held index loaded), subst (HoldsValid P.bincode) (sym on) held)
    | inr (inl (e, failed)) ↦ absurd (ground (arith, failed))
    | inr (inr crashed) ↦ absurd (ground (arith, crashed))
  ]

  new_sender-Sound :
      (disk : Disk) (s : Sender P)
      → Sender.new P disk ≡ some s
      → Held P nothing disk
      → SenderSound P nothing s
  unfolding Sender.new
  new_sender-Sound disk s h held = elim (Outcome-cases (load P.bincode disk)) [
    | inl (index, loaded) ↦
        let same : s.index ≡ index = ground (arith, loaded) in
        let on : s.disk ≡ disk = ground (arith, loaded) in
        (subst IsValid (sym same) (held index loaded), subst (HoldsValid P.bincode) (sym on) held)
    | inr (inl (e, failed)) ↦ absurd (ground (arith, failed))
    | inr (inr crashed) ↦ absurd (ground (arith, crashed))
  ]

  logged_receiver-Sound :
      (o : Outcome ClientHandlerError (Unit {0})) (r : Receiver P) (app : App P)
      → ReceiverSound P nothing r
      → Sound P nothing app
      → Sound P nothing (logged_receiver P (o, r) app).1
  unfolding logged_receiver put_receiver
  logged_receiver-Sound (ok u) r app h v = (h, h.1, v.2)
  logged_receiver-Sound (err e) r app h v = v
  logged_receiver-Sound panic r app h v = v

  logged_sender-Sound :
      (o : Outcome ClientHandlerError (Unit {0})) (s : Sender P) (app : App P)
      → SenderSound P nothing s
      → Sound P nothing app
      → Sound P nothing (logged_sender P (o, s) app).1
  unfolding logged_sender put_sender
  logged_sender-Sound (ok u) s app h v = (h, v.1, h.1)
  logged_sender-Sound (err e) s app h v = v
  logged_sender-Sound panic s app h v = v

  pub start_receiver-Keeps : Keeps P nothing (start_receiver P)
  unfolding start_receiver
  start_receiver-Keeps app v = elim (Option-cases (Receiver.new P app.receiver_dir app.files)) [
    | inl unreadable ↦ rw (unreadable, start_receiver) v
    | inr (r, made) ↦
        rw (made, start_receiver)
          (logged_receiver-Sound (Receiver.log_in P (ascii "receiver") receiver_key r).0
            (Receiver.log_in P (ascii "receiver") receiver_key r).1 app
            (Operating.log_in-Keeps P (Held P nothing) (save-HoldsValid P.bincode nothing)
              (ascii "receiver") receiver_key r
              (new_receiver-Sound app.receiver_dir app.files r made v.1))
            v)
  ]

  pub start_sender-Keeps : Keeps P nothing (start_sender P)
  unfolding start_sender
  start_sender-Keeps app v = elim (Option-cases (Sender.new P app.sender_dir)) [
    | inl unreadable ↦ rw (unreadable, start_sender) v
    | inr (s, made) ↦
        rw (made, start_sender)
          (logged_sender-Sound (Sender.log_in P (ascii "sender") sender_key s).0
            (Sender.log_in P (ascii "sender") sender_key s).1 app
            (Sending.log_in-Keeps P (Held P nothing) (save-HoldsValid P.bincode nothing)
              (ascii "sender") sender_key s (new_sender-Sound app.sender_dir s made v.2))
            v)
  ]
