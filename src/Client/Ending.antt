-- ===== src/Client/Ending.antt =====
-- The parts of a chunk down to its last one (rstr_client/src/client.rs).
use rstr.Prelude.{
  ℕ, ◌+◌, ◌<◌, ◌≡◌, refl, sym, ap, ◌∙◌, false, List, [], ◌∷◌, ◌++◌, length, arith, All, concat,
  length-append, append-nil, append_assoc,
}
use rstr.Meta.Types.{Chunk, MetaIndexEntry}
use rstr.Message.{transmit_chunk}
use rstr.Client.Types.{Platform}
use rstr.Client.Receiver.{Receiver, RequestingFile}
use rstr.Client.Chunks.{process_message, after_part, chunk_received}
use rstr.Client.Receiving.{Downloading, receive_more, with_part}
use rstr.Client.Completing.{part_ends}
use rstr.Client.Transfers.{receive_all, receive_one}

module _ (P : Platform) where
  -- All the parts of a chunk come down to what follows its last one.
  pub receive_all-ends :
      (receiver : Receiver P) (e : MetaIndexEntry) (c : Chunk) (r : RequestingFile P)
      (bytes : List ℕ) (buffers : List (List ℕ))
      → Downloading P receiver e c r bytes
      → All (λ b. 0 < length b) buffers
      → length bytes < c.size
      → length bytes + length (concat buffers) ≡ c.size
      → c.hash ≡ P.hasher.hash (bytes ++ concat buffers)
      → (s : Receiver P) × (s.index ≡ receiver.index)
        × (s.disk ≡ receiver.disk)
        × (s.stopped ≡ false)
        × (s.files.refused e.local_path ≡ false)
        × ((receive_all P buffers receiver).1 ≡ (chunk_received P r.remote_path r.chunk_index s).1)
  unfolding receive_all
  receive_all-ends receiver e c r bytes [] d some_bytes below full right = absurd (omega arith)
  receive_all-ends receiver e c r bytes (b ∷ []) d some_bytes below full right =
      let whole : b ++ [] ≡ b = append-nil b in
      let ends =
        part_ends P receiver e c r bytes b d (omega (arith, ap length whole))
          (right ∙ ap (λ x. P.hasher.hash (bytes ++ x)) whole) in
      (
        with_part P receiver e r b,
        refl,
        refl,
        d.running,
        d.writable,
        receive_one P b receiver ∙ ap (λ o. o.1) ends,
      )
  receive_all-ends receiver e c r bytes (b ∷ b' ∷ buffers) d some_bytes below full right =
      let rest : List ℕ = concat (b' ∷ buffers) in
      let more : length bytes + length b < c.size =
        omega (arith, some_bytes.1.0, length-append b rest, length-append b' (concat buffers)) in
      let (p, went, kept, on_disk, next) = receive_more P receiver e c r bytes b d more in
      let same : (bytes ++ b) ++ rest ≡ bytes ++ (b ++ rest) = append_assoc bytes b rest in
      let (s, ix, disk, running, writable, ends) =
        receive_all-ends (process_message P (transmit_chunk b) receiver).1 e c
          (record (after_part P r b) { progress = p }) (bytes ++ b) (b' ∷ buffers) next some_bytes.1
          (omega (arith, length-append bytes b))
          (omega (arith, length-append bytes b, length-append b rest))
          (right ∙ ap P.hasher.hash (sym same)) in
      (s, ix ∙ kept, disk ∙ on_disk, running, writable, rw went ends)
