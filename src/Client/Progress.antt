-- ===== src/Client/Progress.antt =====
-- How much of a file has come (`calculate_downloaded` in rstr_client/src/client.rs).
use rstr.Prelude.{
  ℕ, ◌+◌, ◌%◌, ◌^◌, ◌≤◌, ◌<◌, ◌≡◌, refl, ap, ◌∙◌, false, some, List, [], ◌∷◌, length, get_elem?,
  All, arith,
}
use rstr.Meta.Types.{Chunk, MetaIndexEntry}
use rstr.Meta.Index.{contains}
use rstr.Meta.Received.{IsReceived}
use rstr.Meta.Slices.{Describes}
use rstr.Meta.Totals.{sum, size_of, size_at, sum-le_length}
use rstr.Client.Types.{Platform}
use rstr.Client.Receiver.{sizes_from, calculate_downloaded}
use rstr.Client.Requests.{get_elem?-some}
use rstr.Client.Completing.{get_elem?-below}

sizes_from-sum :
    (P : Platform) (chunks : List Chunk) (downloaded : ℕ) (received : List ℕ)
    → All (λ i. i < length chunks) received
    → downloaded + sum (size_at chunks) received < 2 ^ 64
    → sizes_from P chunks downloaded received ≡ some (downloaded + sum (size_at chunks) received)
unfolding sizes_from
sizes_from-sum P chunks downloaded [] known small = ap some (omega arith)
sizes_from-sum P chunks downloaded (i ∷ received) known small =
    let (c, there) = get_elem?-some chunks i known.0 in
    let size : size_at chunks i ≡ c.size = ap size_of there in
    let no_wrap : (downloaded + c.size) % 2 ^ 64 ≡ downloaded + c.size = omega arith in
    rw (there, sizes_from)
      (rw no_wrap (
        sizes_from-sum P chunks (downloaded + c.size) received known.1 (omega arith)
        ∙ ap some (omega arith)))

-- The count of the received bytes does not overflow and never passes the file's size. The entry has
-- received chunks of its file only, each once, its chunks are those of a file of fewer than 2^64
-- bytes, and its size is the file's: then the count is the sum of the sizes of the received chunks,
-- at most the file's size, and with a chunk that is still missing it leaves room for all of that
-- chunk.
pub calculate_downloaded_bound :
    (P : Platform) (e : MetaIndexEntry) (file : List ℕ)
    → Describes P.hasher.hash 0 e.meta.chunks file
    → e.meta.size ≡ length file
    → e.meta.size < 2 ^ 64
    → IsReceived e
    → (total : ℕ) × (calculate_downloaded P e ≡ some total)
      × (total ≡ sum (size_at e.meta.chunks) e.received_chunks)
      × (total ≤ e.meta.size)
      × ((i : ℕ) (c : Chunk)
          → get_elem? e.meta.chunks i ≡ some c
          → contains e.received_chunks i ≡ false
          → total + c.size ≤ e.meta.size)
unfolding calculate_downloaded
calculate_downloaded_bound P e file described whole small fine =
    let within =
      sum-le_length P.hasher.hash e.meta.chunks file e.received_chunks described fine.once
        fine.known in
    (
      sum (size_at e.meta.chunks) e.received_chunks,
      sizes_from-sum P e.meta.chunks 0 e.received_chunks fine.known (omega arith)
          ∙ ap some (omega arith),
      refl,
      omega arith,
      λ i c there lacks.
          let more =
            sum-le_length P.hasher.hash e.meta.chunks file (i ∷ e.received_chunks) described
              (lacks, fine.once) (get_elem?-below e.meta.chunks i c there, fine.known) in
          omega (arith, more, ap size_of there),
    )
