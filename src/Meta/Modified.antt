-- ===== src/Meta/Modified.antt =====
-- The times of modification in `MetaIndex` (rstr_core/src/meta.rs): `get_last_updated` and
-- `get_modified_after`.
use rstr.Prelude.{◌≡◌, refl, none, some, List, [], ◌∷◌, arith, All, All-imp, inl, inr, Option-cases}
use rstr.Prelude.Int.{ℤ, ◌≤ℤ◌}
use rstr.Meta.Types.{MetaIndexEntry, MetaIndex}
use rstr.Meta.Index.{modified_after, get_modified_after, max_modified, get_last_updated}

abbrev pub NotAfter : ℤ → MetaIndexEntry → Type 0
NotAfter time e = e.meta.meta_modified ≤ℤ time

max_modified-none : (entries : List MetaIndexEntry) → max_modified entries ≡ none → entries ≡ []
unfolding max_modified
max_modified-none [] h = refl
max_modified-none (e ∷ entries) h = ground arith

max_modified-NotAfter :
    (entries : List MetaIndexEntry) (best : MetaIndexEntry)
    → max_modified entries ≡ some best
    → All (NotAfter best.meta.meta_modified) entries
unfolding max_modified
max_modified-NotAfter [] best h = tt
max_modified-NotAfter (e ∷ entries) best h = elim (Option-cases (max_modified entries)) [
  | inl nothing ↦ rw (max_modified-none entries nothing) (ground arith, tt)
  | inr (b, found) ↦ (
    ground arith,
    All-imp (NotAfter b.meta.meta_modified) (NotAfter best.meta.meta_modified)
        (λ x le. ground arith) entries (max_modified-NotAfter entries b found),
  )
]

-- No entry was modified after the time that `get_last_updated` gives.
pub get_last_updated_bound :
    (index : MetaIndex) → All (NotAfter (get_last_updated index)) index.entries
unfolding get_last_updated
get_last_updated_bound index = elim (Option-cases (max_modified index.entries)) [
  | inl nothing ↦ rw (max_modified-none index.entries nothing) tt
  | inr (b, found) ↦ rw (found, get_last_updated) (max_modified-NotAfter index.entries b found)
]

none_after :
    (time : ℤ) (entries : List MetaIndexEntry)
    → All (NotAfter time) entries
    → modified_after time entries ≡ []
unfolding modified_after
none_after time [] h = refl
none_after time (e ∷ entries) h = ground (arith, none_after time entries h.1, h.0)

-- Asking an index for what is newer than its own newest entry gives nothing.
pub get_modified_after-get_last_updated :
    (index : MetaIndex) → get_modified_after index (get_last_updated index) ≡ []
unfolding get_modified_after
get_modified_after-get_last_updated index =
    none_after (get_last_updated index) index.entries (get_last_updated_bound index)
