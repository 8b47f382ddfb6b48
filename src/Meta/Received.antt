-- ===== src/Meta/Received.antt =====
-- The chunks that an entry of the index has received (rstr_core/src/meta.rs): each once, and each a
-- chunk of the file.
use rstr.Prelude.{
  ℕ, ◌<◌, ◌≡◌, some, List, [], ◌∷◌, length, leb, arith, if◌then◌else◌, All, All-append, All-set,
  Option-cases, Bool-cases, inl, inr, subst, sym,
}
use rstr.Prelude.Text.{Text, text_eq}
use rstr.Meta.Types.{Meta, MetaIndexEntry, MetaIndex}
use rstr.Meta.Index.{
  find_path, find_entry, change_path, find_entry_mut, position, add_entry, remove, fresh_entry,
  add_for_meta, mark_received, receive, relocate, change_local,
}
use rstr.Meta.Members.{Distinct, insert-Distinct, insert-All}
use rstr.Meta.Paths.{
  PathsDiffer, remove_path-All, add_entry-PathsDiffer, remove-PathsDiffer,
  mark_received-PathsDiffer, change_local-PathsDiffer,
}

pub record IsReceived (e : MetaIndexEntry) : Type 0 where
  pub once : Distinct e.received_chunks
  pub known : All (λ i. i < length e.meta.chunks) e.received_chunks

-- The invariant of the index.
pub record IsValid (index : MetaIndex) : Type 0 where
  pub paths : PathsDiffer index.entries
  pub received : All IsReceived index.entries

pub receive-IsReceived :
    (e : MetaIndexEntry) (i : ℕ)
    → i < length e.meta.chunks
    → IsReceived e
    → IsReceived (receive i e)
receive-IsReceived e i fits h = record {
  once = insert-Distinct e.received_chunks i h.once;
  known = insert-All (λ j. j < length e.meta.chunks) e.received_chunks i fits h.known;
}

change_path-All :
    (P : MetaIndexEntry → Type 0) (f : MetaIndexEntry → MetaIndexEntry) (p : Text)
    (entries : List MetaIndexEntry) (e : MetaIndexEntry)
    → find_path p entries ≡ some e
    → (P e → P (f e))
    → All P entries
    → All P (change_path p f entries)
unfolding find_path change_path
change_path-All P f p [] e found keep h = cc
change_path-All P f p (x ∷ entries) e found keep h = elim (Bool-cases (text_eq x.meta.path p)) [
  | inl hit ↦
      rw (hit, change_path)
        (let same : x ≡ e = ground arith in subst (λ y. P y → P (f y)) (sym same) keep h.0, h.1)
  | inr miss ↦ rw (miss, change_path) (h.0, change_path-All P f p entries e (ground arith) keep h.1)
]

pub add_entry-All :
    (P : MetaIndexEntry → Type 0) (index : MetaIndex) (e : MetaIndexEntry)
    → P e
    → All P index.entries
    → All P (add_entry index e).entries
unfolding add_entry
add_entry-All P index e pe h = elim (Option-cases (position e.meta.path index.entries)) [
  | inl new ↦ rw (new, add_entry) (All-append P index.entries (e ∷ []) h (pe, tt))
  | inr (i, old) ↦ rw (old, add_entry) (All-set P index.entries i e pe h)
]

pub find_path-All :
    (P : MetaIndexEntry → Type 0) (p : Text) (entries : List MetaIndexEntry) (e : MetaIndexEntry)
    → find_path p entries ≡ some e
    → All P entries
    → P e
unfolding find_path
find_path-All P p [] e found h = cc
find_path-All P p (x ∷ entries) e found h = elim (Bool-cases (text_eq x.meta.path p)) [
  | inl hit ↦ let same : x ≡ e = ground arith in subst P same h.0
  | inr miss ↦ find_path-All P p entries e (ground arith) h.1
]

pub add_entry-IsValid :
    (index : MetaIndex) (e : MetaIndexEntry)
    → IsReceived e
    → IsValid index
    → IsValid (add_entry index e)
add_entry-IsValid index e fine h = record {
  paths = add_entry-PathsDiffer index e h.paths;
  received = add_entry-All IsReceived index e fine h.received;
}

pub add_for_meta-IsValid :
    (index : MetaIndex) (meta : Meta) → IsValid index → IsValid (add_for_meta index meta)
unfolding add_for_meta
add_for_meta-IsValid index meta h =
    add_entry-IsValid index (fresh_entry meta) (record { once = tt; known = tt }) h

pub remove-IsValid : (index : MetaIndex) (p : Text) → IsValid index → IsValid (remove index p)
unfolding remove
remove-IsValid index p h = record {
  paths = remove-PathsDiffer index p h.paths;
  received = remove_path-All IsReceived p index.entries h.received;
}

mark_received-All :
    (index : MetaIndex) (p : Text) (i : ℕ)
    → All IsReceived index.entries
    → All IsReceived (mark_received p i index).1.entries
unfolding mark_received find_entry_mut find_entry
mark_received-All index p i h = elim (Option-cases (find_path p index.entries)) [
  | inl missing ↦ rw (missing, mark_received) h
  | inr (e, found) ↦ elim (Bool-cases (leb (length e.meta.chunks) i)) [
    | inl outside ↦ rw (found, mark_received) (rw (outside, if◌then◌else◌) h)
    | inr inside ↦
        rw (found, mark_received)
          (rw (inside, if◌then◌else◌)
            (change_path-All IsReceived (receive i) p index.entries e found
              (receive-IsReceived e i (ground arith)) h))
  ]
]

pub mark_received-IsValid :
    (index : MetaIndex) (p : Text) (i : ℕ) → IsValid index → IsValid (mark_received p i index).1
mark_received-IsValid index p i h = record {
  paths = mark_received-PathsDiffer index p i h.paths;
  received = mark_received-All index p i h.received;
}

change_local-All :
    (index : MetaIndex) (p local_path : Text)
    → All IsReceived index.entries
    → All IsReceived (change_local p local_path index).1.entries
unfolding change_local find_entry_mut find_entry
change_local-All index p local_path h = elim (Option-cases (find_path p index.entries)) [
  | inl missing ↦ rw (missing, change_local) h
  | inr (e, found) ↦
      rw (found, change_local)
        (change_path-All IsReceived (relocate local_path) p index.entries e found
          (λ _. record { once = tt; known = tt }) h)
]

pub change_local-IsValid :
    (index : MetaIndex) (p local_path : Text)
    → IsValid index
    → IsValid (change_local p local_path index).1
change_local-IsValid index p local_path h = record {
  paths = change_local-PathsDiffer index p local_path h.paths;
  received = change_local-All index p local_path h.received;
}
