-- ===== src/Server/State.antt =====
-- The state of the server of rstr_server/src/server.rs and its access to clients and channels.
-- A channel and a cancellation token are shared by the copies of a `Client`, so they are handles,
-- and what was sent and cancelled is kept by handle beside the server's own fields.
use rstr.Prelude.{
  ℕ, Bool, true, false, Option, none, some, List, [], ◌∷◌, ◌++◌, ◌==◌, if◌then◌else◌,
}
use rstr.Prelude.Text.{Text}
use rstr.Prelude.Exec.{Exec, Outcome, ok, err, ok_or}
use rstr.Meta.Types.{MetaIndex, WriteToFileError}
use rstr.Meta.Storage.{Bincode, Disk, save}
use rstr.Message.{BinaryMessage, MessagePayload, message}

pub data ClientType : Type 0 where
  unidentified receiver sender : ClientType

abbrev pub type_eq : ClientType → ClientType → Bool
type_eq unidentified unidentified = true
type_eq receiver receiver = true
type_eq sender sender = true
type_eq _ _ = false

pub data HandlerError : Type 0 where
  tungstenite_error decode_error encode_error server_handler_error io_error : HandlerError
  unsupported client_not_found client_occupied invalid_token unknown_message : HandlerError

pub record Client : Type 0 where
  pub addr : ℕ
  pub client_type : ClientType
  pub outgoing : ℕ
  pub cancellation_token : ℕ

pub record Server : Type 0 where
  pub clients : List Client
  pub index : MetaIndex
  pub receiver_token : Text
  pub sender_token : Text
  pub disk : Disk
  pub sent : List (ℕ × BinaryMessage)
  pub closed : ℕ → Bool
  pub cancelled : List ℕ

-- `HashMap::get`, `insert` and `remove`; the order of the list is that of the iteration.
unfoldable pub client_at : ℕ → List Client → Option Client
client_at addr [] = none
client_at addr (c ∷ clients) = if c.addr == addr then some c else client_at addr clients

unfoldable pub insert_client : Client → List Client → List Client
insert_client client [] = client ∷ []
insert_client client (c ∷ clients) =
    if c.addr == client.addr then client ∷ clients else c ∷ insert_client client clients

unfoldable pub remove_client : ℕ → List Client → List Client
remove_client addr [] = []
remove_client addr (c ∷ clients) =
    if c.addr == addr then remove_client addr clients else c ∷ remove_client addr clients

-- `client.client_type = t` under the lock of the client at an address.
unfoldable pub set_type : ℕ → ClientType → List Client → List Client
set_type addr t [] = []
set_type addr t (c ∷ clients) =
    if c.addr == addr then record c { client_type = t } ∷ clients else c ∷ set_type addr t clients

unfoldable pub find_type : ClientType → List Client → Option Client
find_type t [] = none
find_type t (c ∷ clients) = if type_eq c.client_type t then some c else find_type t clients

unfoldable pub get_by_type : ClientType → Exec HandlerError Server Client
unfolding find_type
get_by_type t server = ok_or (find_type t server.clients) client_not_found server

unfoldable pub exists_by_type : ClientType → Server → Bool
unfolding find_type
exists_by_type t server = elim (find_type t server.clients) [ none ↦ false | some c ↦ true ]

unfoldable pub check_type : Client → ClientType → Exec HandlerError Server Unit
check_type client t server =
    if type_eq client.client_type t then (ok tt, server) else (err unsupported, server)

unfoldable pub identified : Client → Exec HandlerError Server Unit
identified client server =
    if type_eq client.client_type ClientType.unidentified
    then (err unsupported, server)
    else (ok tt, server)

unfoldable pub is_unidentified : Client → Exec HandlerError Server Unit
is_unidentified client server =
    if type_eq client.client_type ClientType.unidentified
    then (ok tt, server)
    else (err unsupported, server)

-- `outgoing.send(BinaryMessage::new(payload)).await.map_err(|_| HandlerError::IoError)`: it fails
-- where the connection's task is gone.
unfoldable pub send : ℕ → MessagePayload → Exec HandlerError Server Unit
send outgoing payload server =
    if server.closed outgoing
    then (err io_error, server)
    else (ok tt, record server { sent = server.sent ++ (outgoing, message payload) ∷ [] })

module _ (B : Bincode) where
  with_disk : Server → Outcome WriteToFileError Unit × Disk → Outcome WriteToFileError Unit × Server
  with_disk server (result, disk) = (result, record server { disk = disk })

  -- `self.index.save(…)`
  unfoldable pub save_index : Exec WriteToFileError Server Unit
  unfolding with_disk
  save_index server = with_disk server (save B server.index server.disk)
