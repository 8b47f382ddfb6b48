-- ===== src/Server/Sessions.antt =====
-- What a connection tells the server (`handle_connection` of rstr_server/src/server.rs).
use rstr.Prelude.{
  ℕ, ◌≡◌, refl, Option, List, [], ◌∷◌, zero, suc, take, All, All-append, Option-cases, inl, inr,
}
use rstr.Message.{BinaryMessage}
use rstr.Server.State.{ClientType}
use rstr.Server.Loop.{ServerMessage, client_connected, from_client, client_disconnected}
use rstr.Server.Connection.{Frame, binary, failure, incoming_task, handle_connection}

-- A message that a connection may send: under its own address, for a client without a type.
abbrev pub IsOwn : ℕ → ServerMessage → Type 0
IsOwn addr (client_connected client) =
    (client.addr ≡ addr) × (client.client_type ≡ ClientType.unidentified)
IsOwn addr (from_client from m) = from ≡ addr
IsOwn addr (client_disconnected from) = from ≡ addr

take-All :
    (P : ServerMessage → Type 0) (n : ℕ) (messages : List ServerMessage)
    → All P messages
    → All P (take n messages)
take-All P zero messages h = tt
take-All P (suc n) [] h = tt
take-All P (suc n) (m ∷ messages) h = (h.0, take-All P n messages h.1)

incoming-IsOwn :
    (decode : List ℕ → Option BinaryMessage) (addr : ℕ) (frames : List Frame)
    → All (IsOwn addr) (incoming_task decode addr frames).0
unfolding incoming_task
incoming-IsOwn decode addr [] = tt
incoming-IsOwn decode addr (failure ∷ frames) = tt
incoming-IsOwn decode addr (binary bytes ∷ frames) = elim (Option-cases (decode bytes)) [
  | inl bad ↦ rw (bad, incoming_task) tt
  | inr (m, good) ↦ rw (good, incoming_task) (refl, incoming-IsOwn decode addr frames)
]

-- Whatever comes in on a connection, and wherever it is cut off, the connection speaks for its own
-- address only, and the client that it announces has no type yet.
pub handle_connection-IsOwn :
    (decode : List ℕ → Option BinaryMessage) (addr outgoing token : ℕ) (frames : List Frame)
    (handled : ℕ)
    → All (IsOwn addr) (handle_connection decode addr outgoing token frames handled)
unfolding handle_connection
handle_connection-IsOwn decode addr outgoing token frames handled = (
  (refl, refl),
  All-append (IsOwn addr) (take handled (incoming_task decode addr frames).0)
      (client_disconnected addr ∷ [])
      (take-All (IsOwn addr) handled (incoming_task decode addr frames).0
        (incoming-IsOwn decode addr frames))
      (refl, tt),
)
