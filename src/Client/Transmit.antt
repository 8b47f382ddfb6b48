-- ===== src/Client/Transmit.antt =====
-- The task that `Sender::process_request_chunk` of rstr_client/src/client.rs spawns: it reads the
-- chunk from the local file and sends it in parts. `buffers` are what `fill_buf` returns from the
-- chunk's offset on, up to the empty buffer at the end of the file.
use rstr.Prelude.{
  ℕ, ◌+◌, ◌-◌, ◌%◌, ◌^◌, min, true, false, List, [], ◌∷◌, length, ltb, ◌==◌, take, map,
}
use rstr.Message.{transmit_chunk, message}
use rstr.Client.Types.{EventMessage, send_message}

-- The parts that `while count < chunk_size { … }` sends.
unfoldable pub parts : ℕ → ℕ → List (List ℕ) → List (List ℕ)
parts chunk_size count [] = elim (ltb count chunk_size) [ true ↦ [] ∷ [] | false ↦ [] ]
parts chunk_size count (read_buf ∷ buffers) = elim (ltb count chunk_size) [
  | true ↦
      take (min (chunk_size - count) (length read_buf % 2 ^ 32)) read_buf
      ∷ (elim (length read_buf == 0) [
        | true ↦ []
        | false ↦ parts chunk_size ((count + length read_buf) % 2 ^ 32) buffers
      ])
  | false ↦ []
]

-- The messages of the task, where the cancellation comes after `sent` of them. The sends of
-- `TransferStarted`, `TransferStopped` and `TransferFinished` are not awaited, so they do nothing.
unfoldable pub transmit_task : {F32 : Type 0} → ℕ → List (List ℕ) → ℕ → List (EventMessage F32)
unfolding parts
transmit_task chunk_size buffers sent =
    map (λ buffer. send_message (message (transmit_chunk buffer)))
      (take sent (parts chunk_size 0 buffers))
