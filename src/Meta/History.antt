-- ===== src/Meta/History.antt =====
-- Sequences of calls on the index of rstr_core/src/meta.rs, as the server and the clients make them.
use rstr.Prelude.{ℕ, List, [], ◌∷◌}
use rstr.Prelude.Text.{Text}
use rstr.Meta.Types.{Meta, MetaIndexEntry, MetaIndex}
use rstr.Meta.Index.{mark_received, change_local, add_for_meta, add_entry, remove}
use rstr.Meta.Received.{IsReceived, IsValid}
use rstr.Meta.Storage.{empty_index}

-- The calls on an index: an entry that is added by hand has received nothing it does not have.
pub data Call : Type 0 where
  marks : Text → ℕ → Call
  moves : Text → Text → Call
  learns : Meta → Call
  adds : (e : MetaIndexEntry) → IsReceived e → Call
  removes : Text → Call

unfoldable pub step : MetaIndex → Call → MetaIndex
step index (marks p i) = (mark_received p i index).1
step index (moves p local_path) = (change_local p local_path index).1
step index (learns meta) = add_for_meta index meta
step index (adds e fine) = add_entry index e
step index (removes p) = remove index p

unfoldable pub run : MetaIndex → List Call → MetaIndex
unfolding step
run index [] = index
run index (c ∷ calls) = run (step index c) calls

pub empty-IsValid : IsValid empty_index
empty-IsValid = record { paths = tt; received = tt }
