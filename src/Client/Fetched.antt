-- ===== src/Client/Fetched.antt =====
-- Downloads of a small file (rstr_client/src/client.rs).
use rstr.Prelude.{
  ℕ, zero, suc, ◌+◌, ◌≤◌, ◌<◌, ◌≡◌, refl, none, some, List, [], ◌∷◌, length, drop, get_elem?, leb,
  arith, Bool-cases, ◌⊎◌, inl, inr, subst, sym, All, concat, false,
}
use rstr.Prelude.Text.{text_eq}
use rstr.Meta.Types.{Chunk, MetaIndex, MetaIndexEntry}
use rstr.Meta.Index.{
  contains, insert, find_entry, find_entry_mut, change_path, mark_received, change_local,
}
use rstr.Meta.Create.{buffer_limit}
use rstr.Meta.Instances.{encode_small}
use rstr.Client.Receiver.{
  find_first_undownloaded, request_file, calculate_downloaded, Receiver, resume_file, first_missing,
}
use rstr.Client.Chunks.{bytes_of, set_len}
use rstr.Client.Whole.{Kept}
use rstr.Client.Resumed.{resumed_file_arrives}
use rstr.Client.Types.{ReceiverState}
use rstr.Client.Requested.{requested_file_arrives}
use rstr.Client.Sender
use rstr.Client.Samples.{
  example_platform, path_a, path_b, first_chunk, second_chunk, entry_with, file_bytes,
  file_described, downloading_none, resting, entry-IsReceived,
}
use rstr.Client.Progress.{calculate_downloaded_bound}
use rstr.Meta.Totals.{sum, size_at}
use rstr.Client.Download.{mark_all, download}

abbrev index_with : List ℕ → MetaIndex
index_with received = record { entries = entry_with received ∷ [] }

marked_index :
    (received : List ℕ) (i : ℕ)
    → ((mark_received path_a i (index_with received)).1 ≡ index_with received)
      ⊎ ((mark_received path_a i (index_with received)).1 ≡ index_with (insert received i))
unfolding mark_received find_entry find_entry_mut change_path text_eq
marked_index received i = elim (Bool-cases (leb 2 i)) [
  | inl outside ↦ inl (rw outside refl)
  | inr inside ↦ inr (rw inside refl)
]

abbrev CanEncode : MetaIndex → Type 0
CanEncode index = (encoding : List ℕ) × (encode_small index.entries ≡ some encoding)

-- Whatever chunks are marked, the index can be encoded.
encodes_any : (received chunks : List ℕ) → CanEncode (mark_all path_a chunks (index_with received))
encodes_any received [] = (_, refl)
encodes_any received (i ∷ chunks) = elim (marked_index received i) [
  | inl same ↦
      subst (λ ix. CanEncode (mark_all path_a chunks ix)) (sym same) (encodes_any received chunks)
  | inr one_more ↦
      subst (λ ix. CanEncode (mark_all path_a chunks ix)) (sym one_more)
        (encodes_any (insert received i) chunks)
]

abbrev read_buffers : ℕ → List (List ℕ)
read_buffers zero = (1 ∷ 2 ∷ []) ∷ (3 ∷ 4 ∷ 5 ∷ []) ∷ []
read_buffers (suc i) = (4 ∷ []) ∷ (5 ∷ []) ∷ []

abbrev IsRead : Chunk → List (List ℕ) → Type 0
IsRead c bufs =
    All (λ b. (0 < length b) × (length b ≤ buffer_limit)) bufs
    × (concat bufs ≡ drop c.offset file_bytes)

read_buffers-IsRead :
    (i : ℕ) (c : Chunk)
    → get_elem? (first_chunk ∷ second_chunk ∷ []) i ≡ some c
    → IsRead c (read_buffers i)
read_buffers-IsRead zero c h =
    let same : first_chunk ≡ c = cc in
    subst (λ x. IsRead x (read_buffers 0)) same
      (((omega arith, omega arith), ((omega arith, omega arith), tt)), refl)
read_buffers-IsRead (suc zero) c h =
    let same : second_chunk ≡ c = cc in
    subst (λ x. IsRead x (read_buffers 1)) same
      (((omega arith, omega arith), ((omega arith, omega arith), tt)), refl)
read_buffers-IsRead (suc (suc i)) c h = cc

first_bytes : (k : ℕ) → k < 3 → get_elem? (1 ∷ 2 ∷ 3 ∷ 0 ∷ 0 ∷ []) k ≡ get_elem? file_bytes k
first_bytes zero lt = refl
first_bytes (suc zero) lt = refl
first_bytes (suc (suc zero)) lt = refl
first_bytes (suc (suc (suc k))) lt = absurd (omega arith)

-- The first chunk has come, and the download was stopped then.
abbrev stopped : Receiver example_platform
stopped = record downloading_none { state = ReceiverState.idle; requesting_chunk = none }

none-Kept : Kept file_bytes downloading_none.files (entry_with (0 ∷ []))
unfolding contains set_len bytes_of text_eq
none-Kept zero c h received =
    let same : first_chunk ≡ c = cc in
    λ k from to. first_bytes k (subst (λ x. k < x.offset + x.size) (sym same) to)
none-Kept (suc zero) c h received = cc
none-Kept (suc (suc j)) c h received = cc

resumed_file_arrives_example :
    (e' : MetaIndexEntry) × (find_entry
        (download example_platform path_a read_buffers
          (first_chunk ∷ second_chunk ∷ [])
          1
          (resume_file example_platform path_a stopped).1).index
        path_a
      ≡ some e')
    × (e'.meta ≡ (entry_with (0 ∷ [])).meta)
    × (find_first_undownloaded example_platform e' ≡ none)
    × ((download example_platform path_a read_buffers
            (first_chunk ∷ second_chunk ∷ [])
            1
            (resume_file example_platform path_a stopped).1).files.stored
          path_b
        ≡ some (record { bytes = file_bytes; modified = 7 }))
unfolding find_entry text_eq find_first_undownloaded first_missing
resumed_file_arrives_example =
    resumed_file_arrives example_platform stopped path_a (entry_with (0 ∷ [])) 1 file_bytes
      read_buffers 1 refl refl entry-IsReceived refl none-Kept file_described refl (omega arith)
      (omega arith) refl refl refl (λ chunks. encodes_any (0 ∷ []) chunks) read_buffers-IsRead
      (omega arith)

requested_file_arrives_example :
    (e' : MetaIndexEntry) × (find_entry
        (download example_platform path_a read_buffers
          (first_chunk ∷ second_chunk ∷ [])
          2
          (request_file example_platform path_a path_b (resting (entry_with (0 ∷ [])))).1).index
        path_a
      ≡ some e')
    × (e'.meta ≡ (entry_with (0 ∷ [])).meta)
    × (find_first_undownloaded example_platform e' ≡ none)
    × ((download example_platform path_a read_buffers
            (first_chunk ∷ second_chunk ∷ [])
            2
            (request_file example_platform path_a path_b
              (resting (entry_with (0 ∷ [])))).1).files.stored
          path_b
        ≡ some (record { bytes = file_bytes; modified = 7 }))
unfolding find_entry text_eq change_local
requested_file_arrives_example =
    requested_file_arrives example_platform (resting (entry_with (0 ∷ []))) path_a path_b
      (entry_with (0 ∷ [])) file_bytes read_buffers 2 refl refl file_described refl (omega arith)
      (omega arith) (omega arith) refl refl refl (λ chunks. encodes_any [] chunks)
      read_buffers-IsRead (omega arith)

calculate_downloaded_bound_example :
    (total : ℕ) × (calculate_downloaded example_platform (entry_with (0 ∷ [])) ≡ some total)
    × (total ≡ sum (size_at (first_chunk ∷ second_chunk ∷ [])) (0 ∷ []))
    × (total ≤ 5)
    × ((i : ℕ) (c : Chunk)
        → get_elem? (first_chunk ∷ second_chunk ∷ []) i ≡ some c
        → contains (0 ∷ []) i ≡ false
        → total + c.size ≤ 5)
calculate_downloaded_bound_example =
    calculate_downloaded_bound example_platform (entry_with (0 ∷ [])) file_bytes file_described refl
      (omega arith) entry-IsReceived
