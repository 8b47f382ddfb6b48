-- ===== src/Server/Clients.antt =====
-- Which handlers of rstr_server/src/server.rs change the clients: the login only.
use rstr.Prelude.{ℕ, ◌≡◌, refl, ap, none, List, arith, inl, inr, ◌⊎◌}
use rstr.Prelude.Int.{ℤ}
use rstr.Prelude.Text.{Text, text_eq_iff}
use rstr.Meta.Types.{Meta}
use rstr.Meta.Storage.{Bincode}
use rstr.Message.{
  MessagePayload, LoginData, LoginType, UserStatus, RequestChunkData, login, publish_meta,
  remove_meta, request_meta, request_chunk, transmit_chunk, stop_chunk,
}
use rstr.Server.State.{Server, Client, ClientType, find_type, set_type, send}
use rstr.Server.Handlers.{
  notify_sender_status_to_receiver, announce, handle_login, handle_publish_meta, handle_remove_meta,
  handle_request_meta, handle_request_chunk, handle_transmit_chunk, handle_stop_chunk,
  handle_message,
}

pub clients-send :
    (outgoing : ℕ) (payload : MessagePayload) (server : Server)
    → (send outgoing payload server).1.clients ≡ server.clients
unfolding send
clients-send outgoing payload server = ground arith

pub clients-notify_sender_status :
    (status : UserStatus) (server : Server)
    → (notify_sender_status_to_receiver status server).1.clients ≡ server.clients
unfolding notify_sender_status_to_receiver
clients-notify_sender_status status server = ground arith

pub clients-announce :
    (t : ClientType) (server : Server) → (announce t server).1.clients ≡ server.clients
unfolding announce
clients-announce ClientType.receiver server = ground arith
clients-announce ClientType.sender server = ground arith
clients-announce ClientType.unidentified server = refl

clients-publish :
    (B : Bincode) (now : ℤ) (client : Client) (meta : Meta) (server : Server)
    → (handle_publish_meta B now client meta server).1.clients ≡ server.clients
unfolding handle_publish_meta
clients-publish B now client meta server = ground arith

clients-remove :
    (B : Bincode) (client : Client) (path : Text) (server : Server)
    → (handle_remove_meta B client path server).1.clients ≡ server.clients
unfolding handle_remove_meta
clients-remove B client path server = ground arith

clients-request_meta :
    (client : Client) (after : ℤ) (server : Server)
    → (handle_request_meta client after server).1.clients ≡ server.clients
unfolding handle_request_meta
clients-request_meta client after server = ground arith

clients-request_chunk :
    (client : Client) (request : RequestChunkData) (server : Server)
    → (handle_request_chunk client request server).1.clients ≡ server.clients
unfolding handle_request_chunk
clients-request_chunk client request server = ground arith

clients-transmit_chunk :
    (client : Client) (bytes : List ℕ) (server : Server)
    → (handle_transmit_chunk client bytes server).1.clients ≡ server.clients
unfolding handle_transmit_chunk
clients-transmit_chunk client bytes server = ground arith

clients-stop_chunk :
    (client : Client) (server : Server)
    → (handle_stop_chunk client server).1.clients ≡ server.clients
unfolding handle_stop_chunk
clients-stop_chunk client server = ground arith

-- The type that a login asks for, and the token that it needs.
abbrev pub target : LoginType → ClientType
target LoginType.receiver = ClientType.receiver
target LoginType.sender = ClientType.sender

abbrev pub token_of : LoginType → Server → Text
token_of LoginType.receiver server = server.receiver_token
token_of LoginType.sender server = server.sender_token

-- What must hold for a login to be granted.
pub record MayLogIn (client : Client) (login_data : LoginData) (server : Server) : Type 0 where
  pub anonymous : client.client_type ≡ ClientType.unidentified
  pub authentic : login_data.key ≡ token_of login_data.login_type server
  pub free : find_type (target login_data.login_type) server.clients ≡ none

-- A login that is not granted changes nothing at all; one that is gives the type that was asked for
-- to the client at that address, and to no other.
pub handle_login-cases :
    (client : Client) (login_data : LoginData) (server : Server)
    → ((handle_login client login_data server).1 ≡ server)
      ⊎ (MayLogIn client login_data server
          × ((handle_login client login_data server).1.clients
              ≡ set_type client.addr (target login_data.login_type) server.clients))
unfolding handle_login
handle_login-cases client login_data server = ground (
  arith,
  text_eq_iff login_data.key server.receiver_token,
  text_eq_iff login_data.key server.sender_token,
)

-- Whatever message a client sends, and however its handling ends, the list of the clients either
-- stays as it was, or the message is a login that may be granted (the client has no type yet, its key
-- is the token of the role that it names, and nobody has that role) and the client has got that role.
pub clients-handle_message :
    (B : Bincode) (now : ℤ) (client : Client) (payload : MessagePayload) (server : Server)
    → ((handle_message B now client payload server).1.clients ≡ server.clients)
      ⊎ ((login_data : LoginData) × (payload ≡ login login_data)
          × MayLogIn client login_data server
          × ((handle_message B now client payload server).1.clients
              ≡ set_type client.addr (target login_data.login_type) server.clients))
unfolding handle_message
clients-handle_message B now client (login login_data) server =
    elim (handle_login-cases client login_data server) [
      | inl same ↦ inl (ap (λ s. s.clients) same)
      | inr (granted, changed) ↦ inr (login_data, refl, granted, changed)
    ]
clients-handle_message B now client (publish_meta meta) server =
    inl (clients-publish B now client meta server)
clients-handle_message B now client (remove_meta path) server =
    inl (clients-remove B client path server)
clients-handle_message B now client (request_meta after) server =
    inl (clients-request_meta client after server)
clients-handle_message B now client (request_chunk request) server =
    inl (clients-request_chunk client request server)
clients-handle_message B now client (transmit_chunk bytes) server =
    inl (clients-transmit_chunk client bytes server)
clients-handle_message B now client stop_chunk server = inl (clients-stop_chunk client server)
clients-handle_message B now client _ server = inl refl
