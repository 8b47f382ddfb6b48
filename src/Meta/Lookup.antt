-- ===== src/Meta/Lookup.antt =====
-- What a lookup by path finds after each operation of `MetaIndex` (rstr_core/src/meta.rs).
use rstr.Prelude.{
  ℕ, zero, suc, ◌<◌, ◌≤◌, ◌≡◌, refl, false, none, some, List, [], ◌∷◌, ◌++◌, length, set, arith,
  if◌then◌else◌, Option-cases, inl, inr,
}
use mathlib.Core.Option
use rstr.Prelude.Text.{Text, text_eq, text_eq_iff}
use rstr.Prelude.Exec.{ok, err}
use rstr.Meta.Types.{MetaIndexEntry, MetaIndex, MarkReceivedError}
use rstr.Meta.Index.{
  find_path, find_entry, change_path, find_entry_mut, position, add_entry, remove_path, remove,
  mark_received, receive, relocate, change_local,
}

-- An assignment at the first position of a path.
set_found :
    (entries : List MetaIndexEntry) (e : MetaIndexEntry) (i : ℕ) (p : Text)
    → position e.meta.path entries ≡ some i
    → find_path p (set entries i e)
      ≡ (if text_eq e.meta.path p then some e else find_path p entries)
unfolding position find_path
set_found [] e i p h = cc
set_found (x ∷ entries) e zero p h = ground (
  arith,
  text_eq_iff x.meta.path e.meta.path,
  text_eq_iff x.meta.path p,
  text_eq_iff e.meta.path p,
)
set_found (x ∷ entries) e (suc i) p h = ground (
  arith,
  set_found entries e i p,
  text_eq_iff x.meta.path e.meta.path,
  text_eq_iff x.meta.path p,
  text_eq_iff e.meta.path p,
)

push_found :
    (entries : List MetaIndexEntry) (e : MetaIndexEntry) (p : Text)
    → position e.meta.path entries ≡ none
    → find_path p (entries ++ e ∷ [])
      ≡ (if text_eq e.meta.path p then some e else find_path p entries)
unfolding position find_path
push_found [] e p h = refl
push_found (x ∷ entries) e p h = ground (
  arith,
  push_found entries e p,
  text_eq_iff x.meta.path e.meta.path,
  text_eq_iff x.meta.path p,
  text_eq_iff e.meta.path p,
)

-- The entry that was added is the one found under its path, whether it was new or replaced another,
-- and what is found under every other path is as before.
pub find_entry-add_entry :
    (index : MetaIndex) (e : MetaIndexEntry) (p : Text)
    → find_entry (add_entry index e) p
      ≡ (if text_eq e.meta.path p then some e else find_entry index p)
unfolding find_entry add_entry
find_entry-add_entry index e p = elim (Option-cases (position e.meta.path index.entries)) [
  | inl new ↦ rw (new, add_entry) (push_found index.entries e p new)
  | inr (i, old) ↦ rw (old, add_entry) (set_found index.entries e i p old)
]

-- A change in place that keeps the path, at an entry's own path and at any other.
module _ (f : MetaIndexEntry → MetaIndexEntry)
    (keeps : (e : MetaIndexEntry) → (f e).meta.path ≡ e.meta.path) where
  pub find_path-change_path :
      (p q : Text) (entries : List MetaIndexEntry)
      → find_path q (change_path p f entries)
        ≡ (if text_eq p q then Option.map f (find_path q entries) else find_path q entries)
  unfolding find_path change_path
  find_path-change_path p q [] = ground arith
  find_path-change_path p q (e ∷ entries) = ground (
    arith,
    keeps e,
    find_path-change_path p q entries,
    text_eq_iff e.meta.path p,
    text_eq_iff e.meta.path q,
    text_eq_iff p q,
  )

  find_entry-change :
      (index : MetaIndex) (p q : Text) (e : MetaIndexEntry)
      → find_entry index p ≡ some e
      → find_entry (find_entry_mut index p f) q
        ≡ (if text_eq p q then some (f e) else find_entry index q)
  unfolding find_entry find_entry_mut
  find_entry-change index p q e h =
      ground (arith, find_path-change_path p q index.entries, text_eq_iff p q)

-- A chunk that the file has is marked in the file's entry, and no other entry changes.
pub find_entry-mark_received :
    (index : MetaIndex) (p q : Text) (i : ℕ) (e : MetaIndexEntry)
    → find_entry index p ≡ some e
    → i < length e.meta.chunks
    → ((mark_received p i index).0 ≡ ok tt)
      × (find_entry (mark_received p i index).1 q
          ≡ (if text_eq p q then some (receive i e) else find_entry index q))
unfolding mark_received
find_entry-mark_received index p q i e h fits =
    ground (arith, find_entry-change (receive i) (λ x. refl) index p q e h)

-- A file that is not in the index and a chunk that the file does not have are refused, each with its
-- own error, and the index stays as it was.
pub mark_received_refuses :
    (index : MetaIndex) (p : Text) (i : ℕ)
    → ((e : MetaIndexEntry) → find_entry index p ≡ some e → length e.meta.chunks ≤ i)
    → mark_received p i index ≡ (
      elim (find_entry index p) [
        | none ↦ err MarkReceivedError.file_not_found
        | some e ↦ err MarkReceivedError.chunk_not_found
      ],
      index,
    )
unfolding mark_received
mark_received_refuses index p i h = elim (Option-cases (find_entry index p)) [
  | inl missing ↦ rw (missing, mark_received)
  | inr (e, found) ↦
      let few : length e.meta.chunks ≤ i = h e found in rw (found, mark_received) (ground arith)
]

-- `change_local` gives a known file its new place and forgets the chunks received for the old one,
-- and what is found under every other path is as before.
pub find_entry-change_local :
    (index : MetaIndex) (p q local_path : Text) (e : MetaIndexEntry)
    → find_entry index p ≡ some e
    → ((change_local p local_path index).0 ≡ ok tt)
      × (find_entry (change_local p local_path index).1 q
          ≡ (if text_eq p q then some (relocate local_path e) else find_entry index q))
unfolding change_local
find_entry-change_local index p q local_path e h =
    ground (arith, find_entry-change (relocate local_path) (λ x. refl) index p q e h)

find_path-remove_path :
    (p q : Text) (entries : List MetaIndexEntry)
    → text_eq p q ≡ false
    → find_path q (remove_path p entries) ≡ find_path q entries
unfolding find_path remove_path
find_path-remove_path p q [] h = refl
find_path-remove_path p q (e ∷ entries) h = ground (
  arith,
  find_path-remove_path p q entries h,
  text_eq_iff e.meta.path p,
  text_eq_iff e.meta.path q,
  text_eq_iff p q,
)

pub find_entry-remove_ne :
    (index : MetaIndex) (p q : Text)
    → text_eq p q ≡ false
    → find_entry (remove index p) q ≡ find_entry index q
unfolding find_entry remove
find_entry-remove_ne index p q h = find_path-remove_path p q index.entries h
