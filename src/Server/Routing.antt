-- ===== src/Server/Routing.antt =====
-- Where the server of rstr_server/src/server.rs sends what its clients send it.
use rstr.Prelude.{ℕ, ◌≡◌, refl, true, none, some, List, [], ◌∷◌, map, arith, if◌then◌else◌}
use rstr.Prelude.Int.{ℤ}
use rstr.Prelude.Exec.{Exec, Outcome, ok, err, panic}
use rstr.Meta.Types.{Meta, MetaIndexEntry}
use rstr.Meta.Index.{get_modified_after}
use rstr.Meta.Storage.{Bincode}
use rstr.Message.{
  MessagePayload, unknown, error, login, login_success, publish_meta, remove_meta, request_meta,
  transmit_meta, notify_updated, request_chunk, transmit_chunk, notify_sender_status, stop_chunk,
  message,
}
use rstr.Server.State.{
  Server, Client, ClientType, HandlerError, unsupported, client_not_found, find_type, send,
  client_at, type_eq,
}
use rstr.Server.Handlers.{
  handle_publish_meta, handle_request_meta, handle_request_chunk, handle_transmit_chunk,
  handle_stop_chunk, handle_message,
}
use rstr.Server.Loop.{ServerMessage, from_client, handle_clients}

-- The channel of the client of a type.
abbrev channel_of : ClientType → List Client → Outcome HandlerError ℕ
channel_of t clients = elim (find_type t clients) [
  | none ↦ err client_not_found
  | some c ↦ ok c.outgoing
]

abbrev to : MessagePayload → Outcome HandlerError ℕ → Outcome HandlerError (ℕ × MessagePayload)
to payload (ok channel) = ok (channel, payload)
to payload (err e) = err e
to payload panic = panic

-- What travels where: requests and stops go from the receiver to the sender, chunks go from the
-- sender to the receiver, or are answered by a stop where there is none, and a request for metadata
-- is answered from the index.
abbrev pub route : Client → MessagePayload → Server → Outcome HandlerError (ℕ × MessagePayload)
route client (request_chunk request) server =
    if type_eq client.client_type ClientType.receiver
    then to (request_chunk request) (channel_of ClientType.sender server.clients)
    else err unsupported
route client stop_chunk server =
    if type_eq client.client_type ClientType.receiver
    then to stop_chunk (channel_of ClientType.sender server.clients)
    else err unsupported
route client (transmit_chunk bytes) server =
    if type_eq client.client_type ClientType.sender
    then elim (find_type ClientType.receiver server.clients) [
      | none ↦ ok (client.outgoing, stop_chunk)
      | some receiver ↦ ok (receiver.outgoing, transmit_chunk bytes)
    ]
    else err unsupported
route client (request_meta after) server =
    if type_eq client.client_type ClientType.unidentified
    then err unsupported
    else ok (
      client.outgoing,
      transmit_meta (map (λ (e : MetaIndexEntry). e.meta) (get_modified_after server.index after)),
    )
route client _ server = err unsupported

abbrev pub deliver : Outcome HandlerError (ℕ × MessagePayload) → Exec HandlerError Server Unit
deliver (ok (channel, payload)) server = send channel payload server
deliver (err e) server = (err e, server)
deliver panic server = (panic, server)

-- The messages that the server passes on or answers, rather than acts on.
abbrev pub IsRelayed : MessagePayload → Type 0
IsRelayed (request_chunk request) = Unit
IsRelayed stop_chunk = Unit
IsRelayed (transmit_chunk bytes) = Unit
IsRelayed (request_meta after) = Unit
IsRelayed (notify_sender_status status) = Unit
IsRelayed (notify_updated last_modified) = Unit
IsRelayed (transmit_meta metas) = Unit
IsRelayed login_success = Unit
IsRelayed _ = ⊥

-- The handling of a message that the server passes on or answers from its index, or that only the
-- server itself sends, is one delivery along its route, and nothing else. The route goes from the
-- receiver to the sender for requests of chunks and stops, from the sender to the receiver for chunks,
-- or back as a stop where there is no receiver, and back with the newer metadata for a request of
-- metadata. The result, the clients, the index and what is sent are those of the delivery, and a
-- message with no route is refused with the state as it was.
pub handle_message-deliver :
    (B : Bincode) (now : ℤ) (client : Client) (payload : MessagePayload) (server : Server)
    → IsRelayed payload
    → handle_message B now client payload server ≡ deliver (route client payload server) server
unfolding handle_message handle_request_chunk handle_stop_chunk handle_transmit_chunk
    handle_request_meta
handle_message-deliver B now client (request_chunk request) server h = ground arith
handle_message-deliver B now client stop_chunk server h = ground arith
handle_message-deliver B now client (transmit_chunk bytes) server h = ground arith
handle_message-deliver B now client (request_meta after) server h = ground arith
handle_message-deliver B now client (notify_sender_status status) server h = refl
handle_message-deliver B now client (notify_updated last_modified) server h = refl
handle_message-deliver B now client (transmit_meta metas) server h = refl
handle_message-deliver B now client login_success server h = refl
handle_message-deliver B now client unknown server h = absurd h
handle_message-deliver B now client (error text) server h = absurd h
handle_message-deliver B now client (login login_data) server h = absurd h
handle_message-deliver B now client (publish_meta meta) server h = absurd h
handle_message-deliver B now client (remove_meta path) server h = absurd h

-- A receiver whose connection has just gone makes the server panic at the next publication: the
-- task that handles all messages ends, and no later message is handled.
pub publish_panics :
    (B : Bincode) (now : ℤ) (addr : ℕ) (client receiver : Client) (meta : Meta) (server : Server)
    (later : List (ℤ × ServerMessage))
    → client_at addr server.clients ≡ some client
    → client.client_type ≡ ClientType.sender
    → find_type ClientType.receiver server.clients ≡ some receiver
    → server.closed receiver.outgoing ≡ true
    → let published : ℤ × ServerMessage = (now, from_client addr (message (publish_meta meta))) in
      ((handle_clients B (published ∷ later) server).0 ≡ panic)
      × (handle_clients B (published ∷ later) server ≡ handle_clients B (published ∷ []) server)
unfolding handle_clients handle_message handle_publish_meta
publish_panics B now addr client receiver meta server later at is_sender there gone =
    (ground arith, ground arith)
