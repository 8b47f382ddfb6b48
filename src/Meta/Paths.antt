-- ===== src/Meta/Paths.antt =====
-- The index of rstr_core/src/meta.rs holds one entry for a path. `change_remote` can break this.
use rstr.Prelude.{
  ℕ, zero, suc, ◌≡◌, refl, ◌≢◌, false, none, some, List, [], ◌∷◌, ◌++◌, set, arith, if◌then◌else◌,
  All, All-append, All-set, Option-cases, Bool-cases, inl, inr, subst,
}
use rstr.Prelude.Text.{Text, text_eq, text_eq_iff, text_eq_refl}
use rstr.Prelude.Exec.{ok}
use rstr.Meta.Types.{MetaIndexEntry, MetaIndex}
use rstr.Meta.Index.{
  find_path, find_entry, change_path, find_entry_mut, position, add_entry, remove_path, remove,
  mark_received, receive, relocate, rename, change_local, change_remote,
}
use rstr.Meta.Lookup.{find_entry-remove_ne}

-- An entry of another path.
abbrev pub IsElsewhere : Text → MetaIndexEntry → Type 0
IsElsewhere p e = text_eq e.meta.path p ≡ false

abbrev pub PathsDiffer : List MetaIndexEntry → Type 0
PathsDiffer [] = Unit
PathsDiffer (e ∷ entries) = All (IsElsewhere e.meta.path) entries × PathsDiffer entries

module _ (f : MetaIndexEntry → MetaIndexEntry)
    (keeps : (e : MetaIndexEntry) → (f e).meta.path ≡ e.meta.path) where
  change_path-IsElsewhere :
      (p q : Text) (entries : List MetaIndexEntry)
      → All (IsElsewhere q) entries
      → All (IsElsewhere q) (change_path p f entries)
  unfolding change_path
  change_path-IsElsewhere p q [] h = tt
  change_path-IsElsewhere p q (e ∷ entries) h =
      ground (arith, keeps e, h.0, h.1, change_path-IsElsewhere p q entries h.1)

  pub change_path-PathsDiffer :
      (p : Text) (entries : List MetaIndexEntry)
      → PathsDiffer entries
      → PathsDiffer (change_path p f entries)
  unfolding change_path
  change_path-PathsDiffer p [] h = tt
  change_path-PathsDiffer p (e ∷ entries) h = ground (
    arith,
    keeps e,
    h.0,
    h.1,
    change_path-IsElsewhere p e.meta.path entries h.0,
    change_path-PathsDiffer p entries h.1,
  )

set-PathsDiffer :
    (entries : List MetaIndexEntry) (e : MetaIndexEntry) (i : ℕ)
    → position e.meta.path entries ≡ some i
    → PathsDiffer entries
    → PathsDiffer (set entries i e)
unfolding position
set-PathsDiffer [] e i at h = tt
set-PathsDiffer (x ∷ entries) e zero at h =
    let same : x.meta.path ≡ e.meta.path = ground (arith, text_eq_iff x.meta.path e.meta.path) in
    (subst (λ p. All (IsElsewhere p) entries) same h.0, h.1)
set-PathsDiffer (x ∷ entries) e (suc i) at h = (
  All-set (IsElsewhere x.meta.path) entries i e
      (ground (arith, text_eq_iff x.meta.path e.meta.path, text_eq_iff e.meta.path x.meta.path))
      h.0,
  set-PathsDiffer entries e i (ground arith) h.1,
)

not_at_any_position :
    (entries : List MetaIndexEntry) (p : Text)
    → position p entries ≡ none
    → All (IsElsewhere p) entries
unfolding position
not_at_any_position [] p at = tt
not_at_any_position (x ∷ entries) p at =
    (ground arith, not_at_any_position entries p (ground arith))

push-PathsDiffer :
    (entries : List MetaIndexEntry) (e : MetaIndexEntry)
    → All (IsElsewhere e.meta.path) entries
    → PathsDiffer entries
    → PathsDiffer (entries ++ e ∷ [])
push-PathsDiffer [] e new h = (tt, tt)
push-PathsDiffer (x ∷ entries) e new h = (
  All-append (IsElsewhere x.meta.path) entries (e ∷ []) h.0 (
    ground (arith, text_eq_iff x.meta.path e.meta.path, text_eq_iff e.meta.path x.meta.path),
    tt,
  ),
  push-PathsDiffer entries e new.1 h.1,
)

pub add_entry-PathsDiffer :
    (index : MetaIndex) (e : MetaIndexEntry)
    → PathsDiffer index.entries
    → PathsDiffer (add_entry index e).entries
unfolding add_entry
add_entry-PathsDiffer index e h = elim (Option-cases (position e.meta.path index.entries)) [
  | inl new ↦
      rw (new, add_entry)
        (push-PathsDiffer index.entries e (not_at_any_position index.entries e.meta.path new) h)
  | inr (i, old) ↦ rw (old, add_entry) (set-PathsDiffer index.entries e i old h)
]

pub remove_path-All {κ} :
    (P : MetaIndexEntry → Type κ) (p : Text) (entries : List MetaIndexEntry)
    → All P entries
    → All P (remove_path p entries)
unfolding remove_path
remove_path-All P p [] h = tt
remove_path-All P p (e ∷ entries) h = elim (Bool-cases (text_eq e.meta.path p)) [
  | inl hit ↦ rw (hit, remove_path) h.1
  | inr miss ↦ rw (miss, remove_path) (h.0, remove_path-All P p entries h.1)
]

remove_path-PathsDiffer :
    (p : Text) (entries : List MetaIndexEntry)
    → PathsDiffer entries
    → PathsDiffer (remove_path p entries)
unfolding remove_path
remove_path-PathsDiffer p [] h = tt
remove_path-PathsDiffer p (e ∷ entries) h = elim (Bool-cases (text_eq e.meta.path p)) [
  | inl hit ↦ rw (hit, remove_path) h.1
  | inr miss ↦
      rw (miss, remove_path)
        (
          remove_path-All (IsElsewhere e.meta.path) p entries h.0,
          remove_path-PathsDiffer p entries h.1,
        )
]

pub remove-PathsDiffer :
    (index : MetaIndex) (p : Text)
    → PathsDiffer index.entries
    → PathsDiffer (remove index p).entries
unfolding remove
remove-PathsDiffer index p h = remove_path-PathsDiffer p index.entries h

elsewhere_not_found :
    (p : Text) (entries : List MetaIndexEntry)
    → All (IsElsewhere p) entries
    → find_path p entries ≡ none
unfolding find_path
elsewhere_not_found p [] h = refl
elsewhere_not_found p (e ∷ entries) h = ground (arith, h.0, elsewhere_not_found p entries h.1)

find_path-remove_path_self :
    (p : Text) (entries : List MetaIndexEntry)
    → PathsDiffer entries
    → find_path p (remove_path p entries) ≡ none
unfolding find_path remove_path
find_path-remove_path_self p [] h = refl
find_path-remove_path_self p (e ∷ entries) h = elim (Bool-cases (text_eq e.meta.path p)) [
  | inl hit ↦
      rw (hit, remove_path)
        (elsewhere_not_found p entries
          (subst (λ q. All (IsElsewhere q) entries) ((text_eq_iff e.meta.path p).0 hit) h.0))
  | inr miss ↦
      rw (miss, remove_path) (rw (miss, find_path) (find_path-remove_path_self p entries h.1))
]

-- In an index with one entry for a path, a removed path is no longer found; in any index, every
-- other path is found as before.
pub find_entry-remove :
    (index : MetaIndex) (p q : Text)
    → PathsDiffer index.entries
    → find_entry (remove index p) q ≡ (if text_eq p q then none else find_entry index q)
unfolding find_entry remove
find_entry-remove index p q h = elim (Bool-cases (text_eq p q)) [
  | inl same ↦ rw same (
      subst (λ r. find_path r (remove_path p index.entries) ≡ none) ((text_eq_iff p q).0 same)
        (find_path-remove_path_self p index.entries h))
  | inr other ↦ rw other (find_entry-remove_ne index p q other)
]

pub mark_received-PathsDiffer :
    (index : MetaIndex) (p : Text) (i : ℕ)
    → PathsDiffer index.entries
    → PathsDiffer (mark_received p i index).1.entries
unfolding mark_received find_entry_mut
mark_received-PathsDiffer index p i h =
    ground (arith, change_path-PathsDiffer (receive i) (λ x. refl) p index.entries h)

pub change_local-PathsDiffer :
    (index : MetaIndex) (p local_path : Text)
    → PathsDiffer index.entries
    → PathsDiffer (change_local p local_path index).1.entries
unfolding change_local find_entry_mut
change_local-PathsDiffer index p local_path h =
    ground (arith, change_path-PathsDiffer (relocate local_path) (λ x. refl) p index.entries h)

renamed_is_there :
    (p q : Text) (entries : List MetaIndexEntry) (a : MetaIndexEntry)
    → find_path p entries ≡ some a
    → ¬ All (IsElsewhere q) (change_path p (rename q) entries)
unfolding find_path change_path
renamed_is_there p q [] a found h = cc
renamed_is_there p q (e ∷ entries) a found h =
    ground (arith, text_eq_refl q, renamed_is_there p q entries a)

rename_clash :
    (p q : Text) (entries : List MetaIndexEntry) (a b : MetaIndexEntry)
    → find_path p entries ≡ some a
    → find_path q entries ≡ some b
    → text_eq p q ≡ false
    → ¬ PathsDiffer (change_path p (rename q) entries)
unfolding find_path change_path
rename_clash p q [] a b at_p at_q differ h = cc
rename_clash p q (e ∷ entries) a b at_p at_q differ h = ground (
  arith,
  h,
  text_eq_iff e.meta.path p,
  text_eq_iff e.meta.path q,
  text_eq_iff p q,
  elsewhere_not_found q entries,
  renamed_is_there p q entries a,
  rename_clash p q entries a b,
)

-- `change_remote` does not look whether the new path is taken: renaming a known file to the path of
-- another one succeeds, and leaves two entries of that path.
pub change_remote_clash :
    (index : MetaIndex) (p q : Text) (a b : MetaIndexEntry)
    → find_entry index p ≡ some a
    → find_entry index q ≡ some b
    → p ≢ q
    → ((change_remote p q index).0 ≡ ok tt) × (¬ PathsDiffer (change_remote p q index).1.entries)
unfolding change_remote find_entry find_entry_mut
change_remote_clash index p q a b at_p at_q differ = (
  rw (at_p, change_remote),
  rw (at_p, change_remote)
      (rename_clash p q index.entries a b at_p at_q (ground (arith, differ, text_eq_iff p q))),
)
