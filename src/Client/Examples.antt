-- ===== src/Client/Examples.antt =====
-- Runs of the receiver on the parts of a chunk, and of its requests (rstr_client/src/client.rs).
use rstr.Prelude.{ℕ, ◌≤◌, ◌<◌, ◌≡◌, refl, true, false, [], ◌∷◌, arith, ◌⊎◌}
use rstr.Prelude.Exec.{ok, err}
use rstr.Meta.Index.{contains}
use rstr.Message.{transmit_chunk}
use rstr.Client.Types.{invalid_hash}
use rstr.Client.Receiver.{find_first_undownloaded, first_missing}
use rstr.Client.Chunks.{process_message, after_part}
use rstr.Client.Receiving.{Downloading, with_part, receive_more}
use rstr.Client.Requests.{find_first_undownloaded_least}
use rstr.Client.Completing.{receive_last}
use rstr.Client.Samples.{
  example_platform, first_chunk, entry_with, asked, downloading_one, one-Downloading,
}

receive_more_example :
    (p : ℕ) × ((process_message example_platform (transmit_chunk (2 ∷ [])) downloading_one).0
      ≡ ok tt)
    × ((process_message example_platform (transmit_chunk (2 ∷ [])) downloading_one).1.index
        ≡ downloading_one.index)
    × ((process_message example_platform (transmit_chunk (2 ∷ [])) downloading_one).1.disk
        ≡ downloading_one.disk)
    × Downloading example_platform
        (process_message example_platform (transmit_chunk (2 ∷ [])) downloading_one).1
        (entry_with [])
        first_chunk
        (record (after_part example_platform (asked 0 (1 ∷ [])) (2 ∷ [])) { progress = p })
        (1 ∷ 2 ∷ [])
receive_more_example =
    receive_more example_platform downloading_one (entry_with []) first_chunk (asked 0 (1 ∷ []))
      (1 ∷ []) (2 ∷ []) one-Downloading (omega arith)

receive_last_example :
    process_message example_platform (transmit_chunk (2 ∷ 7 ∷ [])) downloading_one ≡ (
      err (invalid_hash 6 10),
      with_part example_platform downloading_one (entry_with []) (asked 0 (1 ∷ [])) (2 ∷ 7 ∷ []),
    )
receive_last_example =
    receive_last example_platform downloading_one (entry_with []) first_chunk (asked 0 (1 ∷ []))
      (1 ∷ []) (2 ∷ 7 ∷ []) one-Downloading (omega arith)

find_first_undownloaded_least_example :
    (1 < 2) × (contains (0 ∷ []) 1 ≡ false) × ((1 ≤ 0) ⊎ (contains (0 ∷ []) 0 ≡ true))
unfolding find_first_undownloaded first_missing
find_first_undownloaded_least_example =
    find_first_undownloaded_least example_platform (entry_with (0 ∷ [])) (omega arith) 1 0 refl
