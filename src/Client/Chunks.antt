-- ===== src/Client/Chunks.antt =====
-- `Receiver::process_message` of rstr_client/src/client.rs and the handlers below it: what the
-- receiver does with the server's messages, above all with the parts of a chunk.
use rstr.Prelude.{
  ℕ, ◌+◌, ◌-◌, ◌%◌, ◌^◌, Option, none, some, List, [], ◌∷◌, ◌++◌, length, ltb, ◌==◌, if◌then◌else◌,
  get_elem?, take, drop, replicate,
}
use rstr.Prelude.Int.{ℤ, ltb_ℤ, to_unsigned}
use rstr.Prelude.Text.{Text, text_eq}
use rstr.Prelude.Exec.{
  Exec, Outcome, ok, err, ◌>>=◌, ◌>>◌, pure, fail, modify, ok_or, unwrap_option, unwrap, map_err,
}
use rstr.Meta.Types.{Chunk, Meta, MetaIndex, MarkReceivedError}
use rstr.Meta.Index.{find_entry, mark_received, add_for_meta}
use rstr.Message.{
  MessagePayload, UserStatus, login_success, transmit_meta, notify_updated, transmit_chunk,
  notify_sender_status,
}
use rstr.Client.Types.{
  Platform, io_error, not_supported, invalid_hash, file_not_requested, file_download_progress,
  file_finished_downloading, update_receiver_files, logged_in_as_receiver, sender_connected,
  sender_disconnected, state_eq, idle, requested_chunk, initializing, receiving_meta,
}
use rstr.Client.Receiver.{
  Receiver, RequestingFile, StoredFile, Files, Step, send_event, check_state, check_states,
  ask_meta, ask_chunk, find_first_undownloaded, save_index, convert_index,
}

-- `set_len(n)`: cut off, or filled up with zeros.
unfoldable pub set_len : ℕ → List ℕ → List ℕ
set_len n bytes = take n bytes ++ replicate (n - length bytes) 0

-- `seek(SeekFrom::Start(offset))` and `write_all`; writing no bytes changes nothing.
unfoldable pub write_at : ℕ → List ℕ → List ℕ → List ℕ
write_at offset [] bytes = bytes
write_at offset (b ∷ buffer) bytes =
    set_len offset bytes ++ ((b ∷ buffer) ++ drop (offset + length (b ∷ buffer)) bytes)

-- `create(true).write(true).open(…)` keeps the bytes of a file that is there.
unfoldable pub bytes_of : Option StoredFile → List ℕ
bytes_of none = []
bytes_of (some file) = file.bytes

-- The bytes of a local file after a part was written into it.
unfoldable pub written_file : Files → Text → ℕ → ℕ → List ℕ → List ℕ
unfolding bytes_of set_len write_at
written_file files local_path total_size offset buffer =
    write_at offset buffer (set_len total_size (bytes_of (files.stored local_path)))

-- `writing_task`: the new files, or `none` for an I/O error.
unfoldable pub writing_task : Files → Text → ℕ → ℤ → ℕ → List ℕ → Option Files
unfolding written_file
writing_task files local_path total_size file_modified offset buffer =
    if files.refused local_path
    then none
    else some (record files {
      stored = λ path.
          if text_eq local_path path
          then some (record {
            bytes = written_file files local_path total_size offset buffer;
            modified = to_unsigned 64 file_modified;
          })
          else files.stored path;
    })

module _ (P : Platform) where
  with_index :
      Receiver P
      → Outcome MarkReceivedError Unit × MetaIndex
      → Outcome MarkReceivedError Unit × Receiver P
  with_index receiver (result, index) = (result, record receiver { index = index })

  -- `self.index.mark_received(…)`
  unfoldable pub mark : Text → ℕ → Exec MarkReceivedError (Receiver P) Unit
  unfolding with_index
  mark remote_path chunk_index receiver =
      with_index receiver (mark_received remote_path chunk_index receiver.index)

  -- A part that did not complete its chunk: the progress, if it has moved.
  unfoldable pub part_received : RequestingFile P → P.floats.F32 → Step P Unit
  unfolding send_event
  part_received requesting new_progress =
      if P.floats.moved new_progress requesting.progress
      then (do
        modify (λ receiver. record receiver {
          requesting_chunk = some (record requesting { progress = new_progress });
        })
        send_event P (file_download_progress new_progress))
      else pure tt

  -- `match Receiver::find_first_undownloaded(&entry)`
  unfoldable pub next_chunk : Text → Option ℕ → Step P Unit
  unfolding ask_chunk send_event convert_index
  next_chunk remote_path (some first_undownloaded) = ask_chunk P remote_path first_undownloaded
  next_chunk remote_path none = do
    modify (λ receiver. record receiver { state = idle })
    send_event P (file_finished_downloading remote_path)
    shown ← convert_index P
    send_event P (update_receiver_files shown.0 shown.1)

  -- A part that completed its chunk, whose hash is right.
  unfoldable pub chunk_received : Text → ℕ → Step P Unit
  unfolding mark save_index find_entry find_first_undownloaded next_chunk
  chunk_received remote_path chunk_index = do
    unwrap (mark remote_path chunk_index)
    map_err io_error (save_index P)
    modify (λ receiver. record receiver { requesting_chunk = none })
    entry ← λ receiver. unwrap_option (find_entry receiver.index remote_path) receiver
    next_chunk remote_path (find_first_undownloaded P entry)

  -- After the part is hashed and written: is the chunk complete, and is it the right one?
  unfoldable pub check_part : RequestingFile P → Chunk → P.floats.F32 → Step P Unit
  unfolding part_received chunk_received
  check_part requesting chunk new_progress =
      if ltb requesting.current_offset ((chunk.offset + chunk.size) % 2 ^ 64)
      then part_received requesting new_progress
      else if chunk.hash == P.hasher.digest requesting.chunk_hash_writer
      then chunk_received requesting.remote_path requesting.chunk_index
      else fail (invalid_hash chunk.hash (P.hasher.digest requesting.chunk_hash_writer))

  -- The requested chunk after a part of it.
  abbrev pub after_part : RequestingFile P → List ℕ → RequestingFile P
  after_part requesting buffer = record requesting {
    current_offset = (requesting.current_offset + length buffer) % 2 ^ 64;
    total_downloaded = (requesting.total_downloaded + length buffer) % 2 ^ 64;
    chunk_hash_writer = P.hasher.write requesting.chunk_hash_writer buffer;
  }

  unfoldable pub receive_part : List ℕ → RequestingFile P → Step P Unit
  unfolding find_entry writing_task check_part
  receive_part buffer requesting = do
    entry ← λ receiver. unwrap_option (find_entry receiver.index requesting.remote_path) receiver
    files ← λ receiver.
        ok_or
          (writing_task receiver.files entry.local_path entry.meta.size entry.meta.file_modified
            requesting.current_offset buffer)
          io_error receiver
    modify (λ receiver. record receiver { files = files })
    chunk ← unwrap_option (get_elem? entry.meta.chunks requesting.chunk_index)
    modify (λ receiver. record receiver { requesting_chunk = some (after_part requesting buffer) })
    check_part (after_part requesting buffer) chunk
        (P.floats.ratio (after_part requesting buffer).total_downloaded entry.meta.size)

  unfoldable pub process_transmit_chunk : List ℕ → Step P Unit
  unfolding receive_part
  process_transmit_chunk buffer receiver =
      if state_eq receiver.state requested_chunk
      then elim receiver.requesting_chunk [
        | none ↦ (err file_not_requested, receiver)
        | some requesting ↦ receive_part buffer requesting receiver
      ]
      else (ok tt, receiver)

  unfoldable pub process_notify_updated : ℤ → Step P Unit
  unfolding ask_meta
  process_notify_updated last_modified receiver =
      if ltb_ℤ receiver.last_updated last_modified
      then ask_meta P receiver.last_updated receiver
      else (ok tt, receiver)

  unfoldable pub learn_all : MetaIndex → List Meta → MetaIndex
  learn_all index [] = index
  learn_all index (m ∷ metas) = learn_all (add_for_meta index m) metas

  unfoldable pub process_transmit_meta : List Meta → Step P Unit
  unfolding learn_all save_index convert_index send_event
  process_transmit_meta metas = do
    modify (λ receiver. record receiver {
      state = receiving_meta;
      index = learn_all receiver.index metas;
    })
    map_err io_error (save_index P)
    shown ← convert_index P
    send_event P (update_receiver_files shown.0 shown.1)
    modify (λ receiver. record receiver { state = idle })

  unfoldable pub process_login_success : Step P Unit
  unfolding check_state convert_index send_event
  process_login_success = do
    check_state P initializing
    modify (λ receiver. record receiver { state = idle })
    shown ← convert_index P
    send_event P (logged_in_as_receiver shown.0 shown.1)

  unfoldable pub process_message : MessagePayload → Step P Unit
  unfolding check_states check_state process_notify_updated process_transmit_meta
      process_transmit_chunk process_login_success send_event
  process_message (notify_updated last_modified) = do
    check_states P (idle ∷ initializing ∷ [])
    process_notify_updated last_modified
  process_message (transmit_meta metas) = do check_state P idle; process_transmit_meta metas
  process_message (transmit_chunk buffer) = do
    check_state P requested_chunk
    process_transmit_chunk buffer
  process_message login_success = process_login_success
  process_message (notify_sender_status UserStatus.connected) = send_event P sender_connected
  process_message (notify_sender_status UserStatus.disconnected) = send_event P sender_disconnected
  process_message _ = fail not_supported
