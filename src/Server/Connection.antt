-- ===== src/Server/Connection.antt =====
-- `Server::handle_connection` of rstr_server/src/server.rs: what one connection tells the server.
use rstr.Prelude.{ℕ, zero, suc, Option, none, some, List, [], ◌∷◌, ◌++◌, take}
use rstr.Message.{BinaryMessage}
use rstr.Server.State.{Client, ClientType, HandlerError, tungstenite_error, decode_error}
use rstr.Server.Loop.{ServerMessage, client_connected, from_client, client_disconnected}
use rstr.Prelude.Exec.{Outcome, ok, err}

-- What the WebSocket delivers: a message's bytes or an error; at the end of the list, the stream's end.
pub data Frame : Type 0 where
  binary : List ℕ → Frame
  failure : Frame

-- `incoming_task`: the messages for the server up to the first error, and how the task ends.
unfoldable pub incoming_task :
    (List ℕ → Option BinaryMessage)
    → ℕ
    → List Frame
    → List ServerMessage × Outcome HandlerError Unit
incoming_task decode addr [] = ([], ok tt)
incoming_task decode addr (failure ∷ frames) = ([], err tungstenite_error)
incoming_task decode addr (binary bytes ∷ frames) =
    let rest = incoming_task decode addr frames in
    elim (decode bytes) [
      | none ↦ ([], err decode_error)
      | some m ↦ (from_client addr m ∷ rest.0, rest.1)
    ]

-- `outgoing_task`: the encodings of the queued messages, as long as the socket takes them.
unfoldable pub outgoing_task :
    (BinaryMessage → List ℕ) → ℕ → List BinaryMessage → List (List ℕ) × Outcome HandlerError Unit
outgoing_task encode room [] = ([], ok tt)
outgoing_task encode zero (m ∷ queue) = ([], err tungstenite_error)
outgoing_task encode (suc room) (m ∷ queue) =
    let rest = outgoing_task encode room queue in (encode m ∷ rest.0, rest.1)

-- The client that a connection announces.
abbrev pub new_client : ℕ → ℕ → ℕ → Client
new_client addr outgoing token = record {
  addr = addr;
  client_type = ClientType.unidentified;
  outgoing = outgoing;
  cancellation_token = token;
}

-- What the server is told, where `select!` ends the connection after `handled` messages: when the
-- incoming task has ended, the outgoing task has failed, or the token is cancelled.
unfoldable pub handle_connection :
    (List ℕ → Option BinaryMessage) → ℕ → ℕ → ℕ → List Frame → ℕ → List ServerMessage
unfolding incoming_task
handle_connection decode addr outgoing token frames handled =
    client_connected (new_client addr outgoing token)
    ∷ (take handled (incoming_task decode addr frames).0 ++ client_disconnected addr ∷ [])
