-- ===== src/Server/Index.antt =====
-- Who changes the index of the server of rstr_server/src/server.rs, and what the answers contain.
use rstr.Prelude.{◌≡◌, refl, true, some, arith, if◌then◌else◌}
use rstr.Prelude.Int.{ℤ}
use rstr.Prelude.Text.{Text, text_eq}
use rstr.Prelude.Exec.{ok}
use rstr.Meta.Types.{Meta, MetaIndex}
use rstr.Meta.Index.{find_entry, fresh_entry, add_entry, add_for_meta, remove}
use rstr.Meta.Lookup.{find_entry-add_entry}
use rstr.Meta.Received.{IsValid, add_for_meta-IsValid, remove-IsValid}
use rstr.Meta.Storage.{Bincode, load, load-save}
use rstr.Message.{
  MessagePayload, LoginData, login, publish_meta, remove_meta, request_meta, request_chunk,
  transmit_chunk, stop_chunk,
}
use rstr.Server.State.{Server, Client, ClientType}
use rstr.Server.Handlers.{
  announce, handle_login, handle_publish_meta, handle_remove_meta, handle_request_meta,
  handle_request_chunk, handle_transmit_chunk, handle_stop_chunk, handle_message,
}

index-announce : (t : ClientType) (server : Server) → (announce t server).1.index ≡ server.index
unfolding announce
index-announce ClientType.receiver server = ground arith
index-announce ClientType.sender server = ground arith
index-announce ClientType.unidentified server = refl

index-login :
    (client : Client) (login_data : LoginData) (server : Server)
    → (handle_login client login_data server).1.index ≡ server.index
unfolding handle_login
index-login client login_data server = ground arith

-- What a message does to the index, by the message and the type of its sender.
abbrev pub index_after : ℤ → ClientType → MessagePayload → MetaIndex → MetaIndex
index_after now ClientType.sender (publish_meta meta) index =
    add_for_meta index (record meta { meta_modified = now })
index_after now ClientType.sender (remove_meta path) index = remove index path
index_after now _ _ index = index

-- Only the sender changes the index, by publishing and by removing metadata; every other message,
-- and the same messages from anyone else, leave it as it is, also where the handler fails or panics.
pub index-handle_message :
    (B : Bincode) (now : ℤ) (client : Client) (payload : MessagePayload) (server : Server)
    → (handle_message B now client payload server).1.index
      ≡ index_after now client.client_type payload server.index
unfolding handle_message handle_publish_meta handle_remove_meta handle_request_meta
    handle_request_chunk handle_transmit_chunk handle_stop_chunk
index-handle_message B now client (login login_data) server =
    ground (arith, index-login client login_data server)
index-handle_message B now client (publish_meta meta) server = ground arith
index-handle_message B now client (remove_meta path) server = ground arith
index-handle_message B now client (request_meta after) server = ground arith
index-handle_message B now client (request_chunk request) server = ground arith
index-handle_message B now client (transmit_chunk bytes) server = ground arith
index-handle_message B now client stop_chunk server = ground arith
index-handle_message B now client _ server = ground arith

index_after-IsValid :
    (now : ℤ) (t : ClientType) (payload : MessagePayload) (index : MetaIndex)
    → IsValid index
    → IsValid (index_after now t payload index)
index_after-IsValid now ClientType.sender (publish_meta meta) index h =
    add_for_meta-IsValid index (record meta { meta_modified = now }) h
index_after-IsValid now ClientType.sender (remove_meta path) index h = remove-IsValid index path h
index_after-IsValid now _ _ index h = h

-- No message makes a valid index of the server invalid: one entry for a path, and no entry with
-- chunks that its file does not have.
pub handle_message-IsValid :
    (B : Bincode) (now : ℤ) (client : Client) (payload : MessagePayload) (server : Server)
    → IsValid server.index
    → IsValid (handle_message B now client payload server).1.index
handle_message-IsValid B now client payload server h =
    rw (index-handle_message B now client payload server)
      (index_after-IsValid now client.client_type payload server.index h)

-- After a publication that succeeds, on a disk that can be read, the file is found in the index under
-- its path, as the sender described it but with the server's own time,
-- and the index on the disk is the index in memory. Other paths are as before.
pub handle_publish_meta_lem :
    (B : Bincode) (now : ℤ) (client : Client) (meta : Meta) (server : Server) (path : Text)
    → client.client_type ≡ ClientType.sender
    → (handle_publish_meta B now client meta server).0 ≡ ok tt
    → server.disk.can_open ≡ true
    → server.disk.can_read ≡ true
    → let after = (handle_publish_meta B now client meta server).1 in
      (find_entry after.index path ≡ (
        if text_eq meta.path path
        then some (fresh_entry (record meta { meta_modified = now }))
        else find_entry server.index path))
      × (load B after.disk ≡ ok after.index)
unfolding handle_publish_meta add_for_meta
handle_publish_meta_lem B now client meta server path is_sender done opens reads =
    let stamped : Meta = record meta { meta_modified = now } in
    ground (
      arith,
      find_entry-add_entry server.index (fresh_entry stamped) path,
      load-save B (add_entry server.index (fresh_entry stamped)) server.disk,
    )
