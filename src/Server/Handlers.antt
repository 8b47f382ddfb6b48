-- ===== src/Server/Handlers.antt =====
-- The handlers of rstr_server/src/server.rs. `client` is the copy of the client that sent the
-- message, `now` the clock in milliseconds.
use rstr.Prelude.{ℕ, none, some, List, map, if◌then◌else◌}
use rstr.Prelude.Int.{ℤ}
use rstr.Prelude.Text.{Text, text_eq}
use rstr.Prelude.Exec.{
  Exec, Outcome, ok, err, ◌>>=◌, ◌>>◌, pure, fail, gets, modify, unwrap_option, unwrap, ignore,
  map_err,
}
use rstr.Meta.Types.{Meta, MetaIndexEntry}
use rstr.Meta.Index.{add_for_meta, remove, get_modified_after}
use rstr.Meta.Storage.{Bincode}
use rstr.Message.{
  MessagePayload, LoginData, LoginType, UserStatus, RequestChunkData, unknown, error, login,
  login_success, publish_meta, remove_meta, request_meta, transmit_meta, notify_updated,
  request_chunk, transmit_chunk, notify_sender_status, stop_chunk,
}
use rstr.Server.State.{
  Server, Client, ClientType, HandlerError, unsupported, client_occupied, invalid_token,
  unknown_message, server_handler_error, client_at, set_type, get_by_type, exists_by_type,
  check_type, identified, is_unidentified, send, save_index, find_type,
}

unfoldable pub notify_sender_status_to_receiver : UserStatus → Exec HandlerError Server Unit
unfolding get_by_type send
notify_sender_status_to_receiver status = do
  receiver ← get_by_type ClientType.receiver
  send receiver.outgoing (notify_sender_status status)

-- The type that a login asks for, if its key is the token of that type.
unfoldable pub matched_type : LoginData → Server → Outcome HandlerError ClientType
matched_type login_data server = elim login_data.login_type [
  | LoginType.receiver ↦
      if text_eq login_data.key server.receiver_token
      then ok ClientType.receiver
      else err invalid_token
  | LoginType.sender ↦
      if text_eq login_data.key server.sender_token then ok ClientType.sender else err invalid_token
]

-- `match self.get_by_type(&matched_type).await { Ok(_) => return Err(ClientOccupied), _ => {} }`
unfoldable pub vacant : ClientType → Exec HandlerError Server Unit
unfolding find_type
vacant t server = elim (find_type t server.clients) [
  | none ↦ (ok tt, server)
  | some c ↦ (err client_occupied, server)
]

-- What a new receiver or a new sender sets off.
unfoldable pub announce : ClientType → Exec HandlerError Server Unit
unfolding notify_sender_status_to_receiver exists_by_type
announce ClientType.receiver server =
    if exists_by_type ClientType.sender server
    then notify_sender_status_to_receiver UserStatus.connected server
    else (ok tt, server)
announce ClientType.sender server =
    ignore (notify_sender_status_to_receiver UserStatus.connected) server
announce ClientType.unidentified server = (ok tt, server)

unfoldable pub handle_login : Client → LoginData → Exec HandlerError Server Unit
unfolding is_unidentified matched_type vacant send announce
handle_login client login_data = do
  is_unidentified client
  t ← λ server. (matched_type login_data server, server)
  vacant t
  entry ← λ server. unwrap_option (client_at client.addr server.clients) server
  modify (λ server. record server { clients = set_type client.addr t server.clients })
  send entry.outgoing login_success
  announce t

-- `receiver.outgoing.send(…).await.unwrap()`, where there is a receiver.
unfoldable pub notify_receiver : ℤ → Exec HandlerError Server Unit
unfolding find_type send
notify_receiver modified server = elim (find_type ClientType.receiver server.clients) [
  | none ↦ (ok tt, server)
  | some receiver ↦
      unwrap {E = HandlerError} (send receiver.outgoing (notify_updated modified)) server
]

unfoldable pub handle_publish_meta : Bincode → ℤ → Client → Meta → Exec HandlerError Server Unit
unfolding check_type save_index notify_receiver
handle_publish_meta B now client meta = do
  check_type client ClientType.sender
  modify (λ server. record server {
    index = add_for_meta server.index (record meta { meta_modified = now });
  })
  unwrap (save_index B)
  notify_receiver now

unfoldable pub handle_remove_meta : Bincode → Client → Text → Exec HandlerError Server Unit
unfolding check_type save_index
handle_remove_meta B client path = do
  check_type client ClientType.sender
  modify (λ server. record server { index = remove server.index path })
  map_err server_handler_error (save_index B)

unfoldable pub handle_request_meta : Client → ℤ → Exec HandlerError Server Unit
unfolding identified send
handle_request_meta client after = do
  identified client
  metas ←
      gets (λ server. map (λ (e : MetaIndexEntry). e.meta) (get_modified_after server.index after))
  send client.outgoing (transmit_meta metas)

unfoldable pub handle_request_chunk : Client → RequestChunkData → Exec HandlerError Server Unit
unfolding check_type get_by_type send
handle_request_chunk client request = do
  check_type client ClientType.receiver
  receiver ← get_by_type ClientType.sender
  send receiver.outgoing (request_chunk request)

unfoldable pub handle_transmit_chunk : Client → List ℕ → Exec HandlerError Server Unit
unfolding check_type find_type send
handle_transmit_chunk client bytes = do
  check_type client ClientType.sender
  λ server. elim (find_type ClientType.receiver server.clients) [
    | none ↦ send client.outgoing stop_chunk server
    | some receiver ↦ send receiver.outgoing (transmit_chunk bytes) server
  ]

unfoldable pub handle_stop_chunk : Client → Exec HandlerError Server Unit
unfolding check_type get_by_type send
handle_stop_chunk client = do
  check_type client ClientType.receiver
  receiver ← get_by_type ClientType.sender
  send receiver.outgoing stop_chunk

unfoldable pub handle_message :
    Bincode → ℤ → Client → MessagePayload → Exec HandlerError Server Unit
handle_message B now client unknown = fail unknown_message
handle_message B now client (error text) = pure tt
handle_message B now client (login login_data) = handle_login client login_data
handle_message B now client (publish_meta meta) = handle_publish_meta B now client meta
handle_message B now client (remove_meta path) = handle_remove_meta B client path
handle_message B now client (request_meta after) = handle_request_meta client after
handle_message B now client (request_chunk request) = handle_request_chunk client request
handle_message B now client (transmit_chunk bytes) = handle_transmit_chunk client bytes
handle_message B now client stop_chunk = handle_stop_chunk client
handle_message B now client (notify_sender_status status) = fail unsupported
handle_message B now client (notify_updated last_modified) = fail unsupported
handle_message B now client (transmit_meta metas) = fail unsupported
handle_message B now client login_success = fail unsupported
