-- ===== src/Server/Loop.antt =====
-- `Server::new` and `Server::handle_clients` of rstr_server/src/server.rs: the start, and the loop
-- over the messages that the connections send to the server.
use Prim.Native.String.{String}
use rstr.Prelude.{ℕ, Bool, Option, none, some, List, [], ◌∷◌, ◌++◌, if◌then◌else◌}
use rstr.Prelude.Int.{ℤ}
use rstr.Prelude.Text.{Text, ascii}
use rstr.Prelude.Exec.{Exec, Outcome, ok, err, panic, ignore, ◌>>◌}
use rstr.Meta.Types.{MetaIndex}
use rstr.Meta.Storage.{Bincode, Disk, load}
use rstr.Message.{BinaryMessage, UserStatus}
use rstr.Server.State.{
  Server, Client, ClientType, HandlerError, type_eq, client_at, insert_client, remove_client,
}
use rstr.Server.Handlers.{handle_message, notify_sender_status_to_receiver}

pub data NewServerError : Type 0 where
  meta_read_error : NewServerError

-- `std::env::var` of a token, or the default.
token_or : Option Text → String → Text
token_or none default = ascii default
token_or (some token) default = token

started : Disk → (ℕ → Bool) → Option Text → Option Text → MetaIndex → Server
unfolding token_or
started disk closed receiver_token sender_token index = record {
  clients = [];
  index = index;
  receiver_token = token_or receiver_token "h87s8ghegh48ghs4gs84hg8s4h8";
  sender_token = token_or sender_token "vn753498573q0v5983n5789qyunasp8fy3j";
  disk = disk;
  sent = [];
  closed = closed;
  cancelled = [];
}

unfoldable pub new :
    Bincode → Disk → (ℕ → Bool) → Option Text → Option Text → Outcome NewServerError Server
unfolding started
new B disk closed receiver_token sender_token = elim (load B disk) [
  | ok index ↦ ok (started disk closed receiver_token sender_token index)
  | err e ↦ err meta_read_error
  | panic ↦ panic
]

pub data ServerMessage : Type 0 where
  client_connected : Client → ServerMessage
  from_client : ℕ → BinaryMessage → ServerMessage
  client_disconnected : ℕ → ServerMessage

-- What the loop does with the result of a handler: an error cancels the client's connection.
unfoldable pub settled :
    Client → Outcome HandlerError Unit × Server → Outcome HandlerError Unit × Server
settled client (ok done, server) = (ok tt, server)
settled client (err e, server) =
    (ok tt, record server { cancelled = server.cancelled ++ client.cancellation_token ∷ [] })
settled client (panic, server) = (panic, server)

unfoldable pub on_message : Bincode → ℤ → ℕ → BinaryMessage → Exec HandlerError Server Unit
unfolding settled
on_message B now addr binary_message server = elim (client_at addr server.clients) [
  | none ↦ (ok tt, server)
  | some client ↦ settled client (handle_message B now client binary_message.payload server)
]

unfoldable pub drop_client : ℕ → Exec HandlerError Server Unit
drop_client addr server = (ok tt, record server { clients = remove_client addr server.clients })

unfoldable pub on_disconnected : ℕ → Exec HandlerError Server Unit
unfolding drop_client
on_disconnected addr server = elim (client_at addr server.clients) [
  | none ↦ (ok tt, server)
  | some client ↦
      if type_eq client.client_type ClientType.sender
      then (ignore {F = HandlerError} (notify_sender_status_to_receiver UserStatus.disconnected)
            >> drop_client addr)
          server
      else drop_client addr server
]

-- One round of the loop.
unfoldable pub step : Bincode → ℤ → ServerMessage → Exec HandlerError Server Unit
unfolding on_message on_disconnected
step B now (client_connected client) server =
    (ok tt, record server { clients = insert_client client server.clients })
step B now (from_client addr binary_message) server = on_message B now addr binary_message server
step B now (client_disconnected addr) server = on_disconnected addr server

-- The loop, over the messages in the order in which the channel delivers them, each with the time
-- at which it is handled. A panic ends the task.
unfoldable pub handle_clients : Bincode → List (ℤ × ServerMessage) → Exec HandlerError Server Unit
unfolding step
handle_clients B [] server = (ok tt, server)
handle_clients B ((now, m) ∷ messages) server = (step B now m >> handle_clients B messages) server
