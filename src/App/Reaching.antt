-- ===== src/App/Reaching.antt =====
-- What holds in every state that the client program of rstr_client/src/main.rs reaches.
use rstr.Prelude.{
  ℕ, ◌≡◌, refl, sym, subst, List, [], ◌∷◌, Bool-cases, Option-cases, Option, none, some, false, inl,
  inr, All, All-append, map, take,
}
use rstr.Prelude.Int.{ℤ}
use rstr.Prelude.Text.{Text}
use rstr.Prelude.Exec.{Outcome, ok, err, panic}
use mathlib.Core.List.{Memᴰ}
use rstr.Meta.Types.{Meta, CreateMetadataError}
use rstr.Meta.Create.{LocalFile}
use rstr.Client.Types.{Platform, EventMessage, send_message}
use rstr.Message.{message, transmit_chunk}
use rstr.Client.Sender.{created, create_meta, create_multiple_meta}
use rstr.Client.Transmit.{parts, transmit_task}
use rstr.Client.Posting.Weight.{IsFresh}
use rstr.Gui.Callbacks.{Click, Ui, post, on_click, all_to_str}
use rstr.App.Paths.{path_file_name, to_str}
use rstr.App.State.{Codec}
use rstr.App.Draining.{handle-Adds}
use rstr.App.Soundness.{Sound}
use rstr.App.Handling.{handle-Keeps}
use rstr.App.Program.{
  Program, posted, clicked_ui, Step, handled, displayed, clicked, received, progressed, made,
  made_one_of, served, changed, Reach, here, next,
}

module _ (P : Platform) where
  created-IsFresh :
      (local_path : Text) (o : Outcome CreateMetadataError Meta) → IsFresh (created P local_path o)
  created-IsFresh local_path (ok meta) = refl
  created-IsFresh local_path (err e) = tt
  created-IsFresh local_path panic = tt

  create_meta-IsFresh :
      (local_path : Text) (file : Option LocalFile) (remote_path : Text) (now : ℤ)
      → IsFresh (create_meta P local_path file remote_path now)
  unfolding create_meta
  create_meta-IsFresh local_path file remote_path now = created-IsFresh local_path _

  create_multiple_meta-IsFresh :
      (files : List (Text × Text × Option LocalFile × ℤ)) (remote_dir : Text)
      → All IsFresh (create_multiple_meta P files remote_dir)
  unfolding create_multiple_meta
  create_multiple_meta-IsFresh [] remote_dir = tt
  create_multiple_meta-IsFresh ((local_path, name, file, now) ∷ files) remote_dir =
      (created-IsFresh local_path _, create_multiple_meta-IsFresh files remote_dir)

  sent-IsFresh :
      (buffers : List (List ℕ))
      → All
          (IsFresh {F32 = P.floats.F32})
          (map (λ buffer. send_message (message (transmit_chunk buffer))) buffers)
  sent-IsFresh [] = tt
  sent-IsFresh (b ∷ buffers) = (tt, sent-IsFresh buffers)

  transmit_task-IsFresh :
      (chunk_size : ℕ) (buffers : List (List ℕ)) (sent : ℕ)
      → All (IsFresh {F32 = P.floats.F32}) (transmit_task chunk_size buffers sent)
  unfolding transmit_task
  transmit_task-IsFresh chunk_size buffers sent =
      sent-IsFresh (take sent (parts chunk_size 0 buffers))

  abbrev ui_of : Ui P.floats.F32 → Ui P.floats.F32
  ui_of ui = record ui { events = []; processing = [] }

  post-IsFresh :
      (event : EventMessage P.floats.F32) (ui : Ui P.floats.F32)
      → IsFresh event
      → ui.events ≡ []
      → All IsFresh (post P.floats.F32 event ui).1.events
  unfolding post
  post-IsFresh event ui fresh empty = elim (Bool-cases ui.event_loop_runs) [
    | inl runs ↦ rw runs (rw empty (fresh, tt))
    | inr ended ↦ rw ended (rw empty tt)
  ]

  clicked-IsFresh :
      (click : Click) (ui : Ui P.floats.F32)
      → ui.events ≡ []
      → All IsFresh (on_click P.floats.F32 click ui).1.events
  unfolding on_click
  clicked-IsFresh Click.pressed_receiver ui e = post-IsFresh _ ui tt e
  clicked-IsFresh Click.pressed_sender ui e = post-IsFresh _ ui tt e
  clicked-IsFresh (Click.download remote_path remote_name (some local_path)) ui e =
      post-IsFresh _ ui tt e
  clicked-IsFresh (Click.download remote_path remote_name none) ui e = rw e tt
  clicked-IsFresh (Click.resume remote_path) ui e = post-IsFresh _ ui tt e
  clicked-IsFresh Click.stop_downloading ui e = post-IsFresh _ ui tt e
  clicked-IsFresh (Click.ok_clicked local_path remote_path) ui e =
      post-IsFresh _ (record ui { meta_dialog = false }) tt e
  clicked-IsFresh (Click.multiple_ok_clicked remote_dir) ui e =
      post-IsFresh _ (record ui { meta_multiple_dialog = false; multiple_meta_paths = [] }) tt e
  clicked-IsFresh (Click.browse_clicked none) ui e = rw e tt
  clicked-IsFresh (Click.browse_clicked (some path)) ui e =
      elim (Option-cases (path_file_name path)) [
        | inl nameless ↦ rw nameless (rw e tt)
        | inr (name, there) ↦ elim (Option-cases (to_str name)) [
          | inl strange ↦ rw there (rw strange (rw e tt))
          | inr (n, readable) ↦ elim (Option-cases (to_str path)) [
            | inl odd ↦ rw there (rw readable (rw odd (rw e tt)))
            | inr (p, fine) ↦ rw there (rw readable (rw fine (rw e tt)))
          ]
        ]
      ]
  clicked-IsFresh (Click.add_files_clicked none) ui e = rw e tt
  clicked-IsFresh (Click.add_files_clicked (some paths)) ui e =
      elim (Option-cases (all_to_str P.floats.F32 paths)) [
        | inl strange ↦ rw strange (rw e tt)
        | inr (ps, fine) ↦ rw fine (rw e tt)
      ]
  clicked-IsFresh _ ui e = rw e tt

All-mem {ℓ κ} : {A : Type ℓ} (P : A → Type κ) (x : A) (xs : List A) → All P xs → Memᴰ x xs → P x
All-mem P x [] h m = elim m [ ]
All-mem P x (y ∷ ys) h (Memᴰ.head e) = subst P (sym e) h.0
All-mem P x (y ∷ ys) h (Memᴰ.tail m) = All-mem P x ys h.1 m

module _ (P : Platform) (C : Codec) (nothing : P.bincode.decode [] ≡ none) where
  -- The indices are valid, and no entry that is on its way into one has received chunks.
  pub record IsSound (p : Program P C) : Type 0 where
    pub indices : Sound P nothing p.app
    pub fresh : All IsFresh p.app.events

  posted-IsSound :
      (event : EventMessage P.floats.F32) (p : Program P C)
      → IsFresh event
      → IsSound p
      → IsSound (posted P C event p)
  posted-IsSound event p fresh v = record {
    indices = v.indices;
    fresh = All-append IsFresh p.app.events (event ∷ []) v.fresh (fresh, tt);
  }

  Step-IsSound : {p q : Program P C} → Step P C p q → IsSound p → IsSound q
  Step-IsSound (handled event rest p e) v =
      let (news, put, less, fresh) = handle-Adds P C event (record p.app { events = rest }) in
      let queued : All IsFresh (event ∷ rest) = subst (All IsFresh) e v.fresh in
      record {
        indices =
            handle-Keeps P nothing C event queued.0 (record p.app { events = rest }) v.indices;
        fresh = subst (All IsFresh) (sym put) (All-append IsFresh rest news queued.1 fresh);
      }
  Step-IsSound (displayed event rest p e) v = record { indices = v.indices; fresh = v.fresh }
  Step-IsSound (clicked click p) v = record {
    indices = v.indices;
    fresh =
        All-append IsFresh p.app.events (clicked_ui P C click p).events v.fresh
          (clicked-IsFresh P click (ui_of P p.ui) refl);
  }
  Step-IsSound (received bytes m p e) v = posted-IsSound _ p tt v
  Step-IsSound (progressed progress p) v = posted-IsSound _ p tt v
  Step-IsSound (made local_path remote_path file now p m) v =
      posted-IsSound _ p (create_meta-IsFresh P local_path file remote_path now) v
  Step-IsSound (made_one_of files remote_dir event p m n) v =
      posted-IsSound event p
        (All-mem IsFresh event _ (create_multiple_meta-IsFresh P files remote_dir) n) v
  Step-IsSound (served chunk_size sent buffers event p m) v =
      posted-IsSound event p
        (All-mem IsFresh event _ (transmit_task-IsFresh P chunk_size buffers sent) m) v
  Step-IsSound (changed opens socket_open p) v = record { indices = v.indices; fresh = v.fresh }

  -- In every state that the client program reaches from a sound one, by events from the server, the
  -- user and its own tasks in any order, the index of the client that runs is valid, and so is every
  -- index that a later login would load from the disk: one entry stands for a path, and each entry
  -- has received chunks of its file only, each once. An empty file is taken not to decode as an index.
  pub Reach-IsSound : {p q : Program P C} → Reach P C p q → IsSound p → IsSound q
  Reach-IsSound here v = v
  Reach-IsSound (next r step) v = Step-IsSound step (Reach-IsSound r v)
