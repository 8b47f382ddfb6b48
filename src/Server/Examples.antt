-- ===== src/Server/Examples.antt =====
-- Runs of the server of rstr_server/src/server.rs, with a receiver, a sender and a newcomer.
use rstr.Prelude.{
  ℕ, ◌≡◌, refl, ◌==◌, Bool, true, false, Option, none, some, List, [], ◌∷◌, ◌⊎◌, All, arith,
}
use rstr.Prelude.Int.{ℤ, pos}
use rstr.Prelude.Text.{text_eq}
use rstr.Prelude.Exec.{ok, panic}
use rstr.Meta.Types.{Meta}
use rstr.Meta.Index.{find_entry, fresh_entry, get_modified_after}
use rstr.Meta.Storage.{load, save, empty_index}
use rstr.Meta.Instances.{small_bincode}
use rstr.Message.{
  BinaryMessage, LoginData, LoginType, UserStatus, RequestChunkData, login, login_success,
  publish_meta, request_chunk, message, notify_sender_status, stop_chunk,
}
use rstr.Server.State.{Server, Client, ClientType, client_at, set_type, find_type}
use rstr.Server.Handlers.{handle_login, handle_publish_meta, handle_message}
use rstr.Server.Loop.{
  ServerMessage, client_connected, from_client, client_disconnected, handle_clients,
}
use rstr.Server.Clients.{MayLogIn, target, clients-handle_message}
use rstr.Server.Roles.{HasRoles, handle_clients-HasRoles}
use rstr.Server.Index.{index-handle_message, index_after, handle_publish_meta_lem}
use rstr.Server.Login.{handle_login_lem}
use rstr.Server.Connection.{binary, handle_connection}
use rstr.Server.Sessions.{IsOwn, handle_connection-IsOwn}
use rstr.Server.Routing.{deliver, handle_message-deliver, publish_panics}

abbrev client_of : ℕ → ClientType → Client
client_of addr t = record {
  addr = addr;
  client_type = t;
  outgoing = addr;
  cancellation_token = addr;
}

abbrev server_of : List Client → (ℕ → Bool) → Server
server_of clients closed = record {
  clients = clients;
  index = empty_index;
  receiver_token = 114 ∷ [];
  sender_token = 115 ∷ [];
  disk = record { contents = none; can_open = true; can_read = true; can_write = true };
  sent = [];
  closed = closed;
  cancelled = [];
}

abbrev all_open : ℕ → Bool
all_open channel = false

-- A sender at 2 and a newcomer at 1.
abbrev waiting : Server
waiting =
    server_of (client_of 1 ClientType.unidentified ∷ client_of 2 ClientType.sender ∷ []) all_open

-- A receiver at 1 and a sender at 2.
abbrev complete : Server
complete = server_of (client_of 1 ClientType.receiver ∷ client_of 2 ClientType.sender ∷ []) all_open

abbrev credentials : LoginData
credentials = record { login_type = LoginType.receiver; username = 117 ∷ []; key = 114 ∷ [] }

abbrev empty_file : Meta
empty_file = record {
  path = 97 ∷ [];
  hash = 0;
  size = 0;
  file_modified = pos 1;
  meta_modified = pos 0;
  chunks = [];
}

handle_clients-HasRoles_example :
    HasRoles
      (handle_clients small_bincode
        ((pos 1, client_connected (client_of 3 ClientType.unidentified))
          ∷ (pos 2, from_client 3 (message (login credentials)))
          ∷ (pos 3, client_disconnected 2)
          ∷ [])
        waiting).1.clients
handle_clients-HasRoles_example =
    handle_clients-HasRoles small_bincode
      ((pos 1, client_connected (client_of 3 ClientType.unidentified))
        ∷ (pos 2, from_client 3 (message (login credentials)))
        ∷ (pos 3, client_disconnected 2)
        ∷ [])
      waiting (refl, (tt, (tt, tt)))
      (record { one_receiver = omega arith; one_sender = omega arith })

handle_login_lem_example :
    handle_login (client_of 1 ClientType.unidentified) credentials waiting ≡ (
      ok tt,
      record waiting {
        clients = client_of 1 ClientType.receiver ∷ client_of 2 ClientType.sender ∷ [];
        sent =
            (1, message login_success)
            ∷ (1, message (notify_sender_status UserStatus.connected))
            ∷ [];
      },
    )
unfolding client_at find_type set_type
handle_login_lem_example =
    handle_login_lem (client_of 1 ClientType.unidentified) credentials waiting refl
      (record { anonymous = refl; authentic = refl; free = refl }) refl

clients-handle_message_example :
    ((handle_message small_bincode
        (pos 5)
        (client_of 1 ClientType.unidentified)
        (login credentials)
        waiting).1.clients
      ≡ waiting.clients)
    ⊎ ((login_data : LoginData) × (login credentials ≡ login login_data)
        × MayLogIn (client_of 1 ClientType.unidentified) login_data waiting
        × ((handle_message small_bincode
              (pos 5)
              (client_of 1 ClientType.unidentified)
              (login credentials)
              waiting).1.clients
            ≡ set_type 1 (target login_data.login_type) waiting.clients))
clients-handle_message_example =
    clients-handle_message small_bincode (pos 5) (client_of 1 ClientType.unidentified)
      (login credentials) waiting

index-handle_message_example :
    (handle_message small_bincode
      (pos 5)
      (client_of 2 ClientType.sender)
      (publish_meta empty_file)
      complete).1.index
    ≡ index_after (pos 5) ClientType.sender (publish_meta empty_file) complete.index
index-handle_message_example =
    index-handle_message small_bincode (pos 5) (client_of 2 ClientType.sender)
      (publish_meta empty_file) complete

handle_publish_meta_lem_example :
    let after =
      (handle_publish_meta small_bincode
        (pos 5)
        (client_of 2 ClientType.sender)
        empty_file
        complete).1 in
    (find_entry after.index (97 ∷ [])
      ≡ some (fresh_entry (record empty_file { meta_modified = pos 5 })))
    × (load small_bincode after.disk ≡ ok after.index)
unfolding handle_publish_meta text_eq save rstr.Meta.Index.add_for_meta
handle_publish_meta_lem_example =
    handle_publish_meta_lem small_bincode (pos 5) (client_of 2 ClientType.sender) empty_file
      complete (97 ∷ []) refl refl refl refl

abbrev request : RequestChunkData
request = record { path = 97 ∷ []; index = 0; hash = 6 }

handle_message-deliver_example :
    handle_message small_bincode
      (pos 5)
      (client_of 1 ClientType.receiver)
      (request_chunk request)
      complete
    ≡ deliver (ok (2, request_chunk request)) complete
unfolding find_type
handle_message-deliver_example =
    handle_message-deliver small_bincode (pos 5) (client_of 1 ClientType.receiver)
      (request_chunk request) complete tt

abbrev gone : ℕ → Bool
gone channel = channel == 1

abbrev half_gone : Server
half_gone = server_of (client_of 1 ClientType.receiver ∷ client_of 2 ClientType.sender ∷ []) gone

publish_panics_example :
    let published : ℤ × ServerMessage =
      (pos 5, from_client 2 (message (publish_meta empty_file))) in
    let later : ℤ × ServerMessage = (pos 6, client_disconnected 2) in
    ((handle_clients small_bincode (published ∷ later ∷ []) half_gone).0 ≡ panic)
    × (handle_clients small_bincode (published ∷ later ∷ []) half_gone
        ≡ handle_clients small_bincode (published ∷ []) half_gone)
unfolding client_at find_type
publish_panics_example =
    publish_panics small_bincode (pos 5) 2 (client_of 2 ClientType.sender)
      (client_of 1 ClientType.receiver) empty_file half_gone ((pos 6, client_disconnected 2) ∷ [])
      refl refl refl refl

abbrev decode_stop : List ℕ → Option BinaryMessage
decode_stop [] = none
decode_stop (b ∷ bytes) = some (message stop_chunk)

handle_connection-IsOwn_example :
    All (IsOwn 4) (handle_connection decode_stop 4 5 6 (binary (1 ∷ []) ∷ binary [] ∷ []) 3)
handle_connection-IsOwn_example =
    handle_connection-IsOwn decode_stop 4 5 6 (binary (1 ∷ []) ∷ binary [] ∷ []) 3
