-- ===== src/Client/Runs.antt =====
-- Runs of the start, the steps and the end of a download, and of the sender
-- (rstr_client/src/client.rs).
use rstr.Prelude.{◌≡◌, refl, none, some, [], ◌∷◌, arith, ◌⊎◌, get_elem?, ◌≢◌}
use rstr.Prelude.Text.{text_eq, is_utf8}
use rstr.Prelude.Exec.{ok, err}
use rstr.Meta.Types.{Chunk, MetaIndexEntry}
use rstr.Meta.Index.{find_entry, receive, relocate, change_local, mark_received, insert}
use rstr.Meta.Storage.{save}
use rstr.Message.{request_chunk}
use rstr.Client.Types.{
  ReceiverState, chunk_not_found, file_finished_downloading, update_receiver_files,
}
use rstr.Client.Receiver.{RequestingFile, request_file, find_first_undownloaded, first_missing}
use rstr.Client.Chunks.{chunk_received}
use rstr.Client.Receiving.{Downloading}
use rstr.Client.Continuing.{chunk_received-Downloading, chunk_received-finishes}
use rstr.Client.Sender
use rstr.Client.Sender.{Sender, start_transfer}
use rstr.Client.Samples.{
  downloading_none, example_platform, path_a, second_chunk, entry_with, downloading_one, resting,
  empty_entry, shown_one, serving, request_of,
}
use rstr.Client.Serving.{process_request_chunk-cases}
use rstr.Client.Listing.{listing, receiver_file}
use rstr.Client.Starting.{request_file_empty}

request_file_empty_example :
    ((request_file example_platform path_a [] (resting empty_entry)).0 ≡ err chunk_not_found)
    × (find_entry (request_file example_platform path_a [] (resting empty_entry)).1.index path_a
        ≡ some (relocate [] empty_entry))
unfolding find_entry text_eq save change_local
request_file_empty_example =
    request_file_empty example_platform (resting empty_entry) path_a [] empty_entry refl refl refl
      refl

chunk_received-Downloading_example :
    (r : RequestingFile example_platform) × ((chunk_received example_platform path_a 0
        downloading_one).0
      ≡ ok tt)
    × (r.remote_path ≡ path_a)
    × (r.chunk_index ≡ 1)
    × Downloading example_platform
        (chunk_received example_platform path_a 0 downloading_one).1
        (receive 0 (entry_with []))
        second_chunk
        r
        []
unfolding find_entry text_eq save mark_received insert find_first_undownloaded first_missing
chunk_received-Downloading_example =
    chunk_received-Downloading example_platform downloading_one path_a 0 (entry_with []) refl
      (omega arith) refl refl 1 second_chunk refl refl (record { once = tt; known = tt })
      (omega arith) (omega arith) refl

chunk_received-finishes_example :
    ((chunk_received example_platform path_a 1 downloading_none).0 ≡ ok tt)
    × ((chunk_received example_platform path_a 1 downloading_none).1.state ≡ ReceiverState.idle)
    × ((chunk_received example_platform path_a 1 downloading_none).1.requesting_chunk ≡ none)
    × ((chunk_received example_platform path_a 1 downloading_none).1.events
        ≡ file_finished_downloading path_a ∷ update_receiver_files shown_one.0 shown_one.1 ∷ [])
unfolding find_entry text_eq save mark_received insert find_first_undownloaded first_missing listing
    receiver_file is_utf8
chunk_received-finishes_example =
    chunk_received-finishes example_platform downloading_none path_a 1 (entry_with (0 ∷ [])) refl
      (omega arith) refl refl shown_one refl refl

process_request_chunk-cases_example :
    ((Sender.process_message example_platform (request_chunk (request_of 1 9)) serving).0 ≢ ok tt)
      × ((Sender.process_message example_platform (request_chunk (request_of 1 9)) serving).1
          ≡ serving)
    ⊎ ((e : MetaIndexEntry) × (c : Chunk) × (find_entry serving.index path_a ≡ some e)
        × (get_elem? e.meta.chunks 1 ≡ some c)
        × (c.hash ≡ 9)
        × (Sender.process_message example_platform (request_chunk (request_of 1 9)) serving
            ≡ start_transfer example_platform e c serving))
process_request_chunk-cases_example =
    process_request_chunk-cases example_platform (request_of 1 9) serving
