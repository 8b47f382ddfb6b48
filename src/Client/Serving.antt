-- ===== src/Client/Serving.antt =====
-- Which requests the sender serves, and what a stop cancels (`Sender::process_message` in
-- rstr_client/src/client.rs).
use rstr.Prelude.{
  ◌≡◌, ◌≢◌, refl, ◌⊎◌, inl, inr, some, ◌==◌, get_elem?, arith, Bool-cases, Option-cases,
}
use rstr.Prelude.Exec.{ok}
use rstr.Meta.Types.{Chunk, MetaIndexEntry}
use rstr.Meta.Index.{find_entry}
use rstr.Message.{RequestChunkData, request_chunk}
use rstr.Client.Types.{Platform}
use rstr.Client.Sender.{Sender, start_transfer, process_request_chunk, process_message}

module _ (P : Platform) where
  -- A request is either refused with an error, and then nothing changes, or it asks for a chunk of a
  -- file in the sender's index by the hash that the chunk has, and then a transfer of that chunk is
  -- started under a new token.
  pub process_request_chunk-cases :
      (request : RequestChunkData) (s : Sender P)
      → (((process_message P (request_chunk request) s).0 ≢ ok tt)
          × ((process_message P (request_chunk request) s).1 ≡ s))
        ⊎ ((e : MetaIndexEntry) × (c : Chunk) × (find_entry s.index request.path ≡ some e)
            × (get_elem? e.meta.chunks request.index ≡ some c)
            × (c.hash ≡ request.hash)
            × (process_message P (request_chunk request) s ≡ start_transfer P e c s))
  unfolding process_message process_request_chunk
  process_request_chunk-cases request s = elim (Option-cases (find_entry s.index request.path)) [
    | inl missing ↦ rw missing (inl (λ h. cc, refl))
    | inr (e, found) ↦ elim (Option-cases (get_elem? e.meta.chunks request.index)) [
      | inl outside ↦ rw found (rw outside (inl (λ h. cc, refl)))
      | inr (c, there) ↦ elim (Bool-cases (c.hash == request.hash)) [
        | inr wrong ↦ rw found (rw there (rw wrong (inl (λ h. cc, refl))))
        | inl right ↦ rw found (rw there (rw right (inr (e, c, refl, there, ground arith, refl))))
      ]
    ]
  ]
