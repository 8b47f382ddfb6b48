-- ===== src/Server/Roles.antt =====
-- At any time the server of rstr_server/src/server.rs has at most one receiver and one sender.
use rstr.Prelude.{
  ℕ, ◌+◌, ◌≤◌, ◌≡◌, refl, ap, false, none, List, [], ◌∷◌, arith, Option-cases, inl, inr, All,
  if◌then◌else◌,
}
use rstr.Prelude.Int.{ℤ}
use rstr.Prelude.Exec.{Exec, Outcome, ok, err, panic, continue}
use rstr.Meta.Storage.{Bincode}
use rstr.Message.{BinaryMessage, UserStatus, LoginType}
use rstr.Server.State.{
  Server, Client, ClientType, HandlerError, type_eq, find_type, client_at, set_type, insert_client,
  remove_client,
}
use rstr.Server.Handlers.{handle_message}
use rstr.Server.Loop.{
  ServerMessage, client_connected, from_client, client_disconnected, settled, on_message,
  on_disconnected, step, handle_clients,
}
use rstr.Server.Clients.{target, clients-handle_message, clients-notify_sender_status}

-- How many clients have a type.
abbrev pub count_type : ClientType → List Client → ℕ
count_type t [] = 0
count_type t (c ∷ clients) = (if type_eq c.client_type t then 1 else 0) + count_type t clients

pub record HasRoles (clients : List Client) : Type 0 where
  pub one_receiver : count_type ClientType.receiver clients ≤ 1
  pub one_sender : count_type ClientType.sender clients ≤ 1

count_type-insert :
    (t : ClientType) (c : Client) (clients : List Client)
    → type_eq c.client_type t ≡ false
    → count_type t (insert_client c clients) ≤ count_type t clients
unfolding insert_client
count_type-insert t c [] h = ground arith
count_type-insert t c (x ∷ clients) h = ground (arith, count_type-insert t c clients)

count_type-remove :
    (t : ClientType) (addr : ℕ) (clients : List Client)
    → count_type t (remove_client addr clients) ≤ count_type t clients
unfolding remove_client
count_type-remove t addr [] = omega arith
count_type-remove t addr (x ∷ clients) = ground (arith, count_type-remove t addr clients)

count_type-set_type_self :
    (t : ClientType) (addr : ℕ) (clients : List Client)
    → count_type t (set_type addr t clients) ≤ count_type t clients + 1
unfolding set_type
count_type-set_type_self t addr [] = omega arith
count_type-set_type_self t addr (x ∷ clients) =
    ground (arith, count_type-set_type_self t addr clients)

count_type-set_type_ne :
    (t u : ClientType) (addr : ℕ) (clients : List Client)
    → type_eq u t ≡ false
    → count_type t (set_type addr u clients) ≤ count_type t clients
unfolding set_type
count_type-set_type_ne t u addr [] h = omega arith
count_type-set_type_ne t u addr (x ∷ clients) h =
    ground (arith, count_type-set_type_ne t u addr clients)

count_type-none :
    (t : ClientType) (clients : List Client) → find_type t clients ≡ none → count_type t clients ≡ 0
unfolding find_type
count_type-none t [] h = refl
count_type-none t (x ∷ clients) h = ground (arith, count_type-none t clients)

-- A type that nobody has can be given to one client.
set_type-HasRoles :
    (l : LoginType) (addr : ℕ) (clients : List Client)
    → find_type (target l) clients ≡ none
    → HasRoles clients
    → HasRoles (set_type addr (target l) clients)
set_type-HasRoles LoginType.receiver addr clients free h = omega (
  arith,
  count_type-none ClientType.receiver clients free,
  count_type-set_type_self ClientType.receiver addr clients,
  count_type-set_type_ne ClientType.sender ClientType.receiver addr clients refl,
)
set_type-HasRoles LoginType.sender addr clients free h = omega (
  arith,
  count_type-none ClientType.sender clients free,
  count_type-set_type_self ClientType.sender addr clients,
  count_type-set_type_ne ClientType.receiver ClientType.sender addr clients refl,
)

settled-clients :
    (client : Client) (r : Outcome HandlerError Unit × Server)
    → (settled client r).1.clients ≡ r.1.clients
unfolding settled
settled-clients client (ok done, server) = refl
settled-clients client (err e, server) = refl
settled-clients client (panic, server) = refl

on_message-HasRoles :
    (B : Bincode) (now : ℤ) (addr : ℕ) (m : BinaryMessage) (server : Server)
    → HasRoles server.clients
    → HasRoles (on_message B now addr m server).1.clients
unfolding on_message
on_message-HasRoles B now addr m server h = elim (Option-cases (client_at addr server.clients)) [
  | inl missing ↦ rw (missing, on_message) h
  | inr (client, found) ↦
      rw (found, on_message)
        (rw (settled-clients client (handle_message B now client m.payload server))
          (elim (clients-handle_message B now client m.payload server) [
            | inl same ↦ rw same h
            | inr (login_data, logged, granted, changed) ↦
                rw changed (
                  set_type-HasRoles login_data.login_type client.addr server.clients granted.free h)
          ]))
]

on_disconnected-HasRoles :
    (addr : ℕ) (server : Server)
    → HasRoles server.clients
    → HasRoles (on_disconnected addr server).1.clients
unfolding on_disconnected
on_disconnected-HasRoles addr server h = ground (
  arith,
  clients-notify_sender_status UserStatus.disconnected server,
  count_type-remove ClientType.receiver addr server.clients,
  count_type-remove ClientType.sender addr server.clients,
)

-- A new connection's client is not identified yet.
abbrev pub IsAnonymous : ServerMessage → Type 0
IsAnonymous (client_connected client) = client.client_type ≡ ClientType.unidentified
IsAnonymous _ = Unit

step-HasRoles :
    (B : Bincode) (now : ℤ) (m : ServerMessage) (server : Server)
    → IsAnonymous m
    → HasRoles server.clients
    → HasRoles (step B now m server).1.clients
unfolding step
step-HasRoles B now (client_connected client) server a h = omega (
  arith,
  count_type-insert ClientType.receiver client server.clients
      (ap (λ t. type_eq t ClientType.receiver) a),
  count_type-insert ClientType.sender client server.clients
      (ap (λ t. type_eq t ClientType.sender) a),
)
step-HasRoles B now (from_client addr m) server a h = on_message-HasRoles B now addr m server h
step-HasRoles B now (client_disconnected addr) server a h = on_disconnected-HasRoles addr server h

then-HasRoles :
    (r : Outcome HandlerError Unit × Server) (k : Exec HandlerError Server Unit)
    → HasRoles r.1.clients
    → ((server : Server) → HasRoles server.clients → HasRoles (k server).1.clients)
    → HasRoles (continue r.0 (λ _. k) r.1).1.clients
then-HasRoles (ok done, server) k h next = next server h
then-HasRoles (err e, server) k h next = h
then-HasRoles (panic, server) k h next = h

-- Whatever the connections send, in whatever order, as long as each announces a client without a
-- type, a server with at most one receiver and at most one sender keeps to that, also where a handler
-- fails or panics.
pub handle_clients-HasRoles :
    (B : Bincode) (messages : List (ℤ × ServerMessage)) (server : Server)
    → All (λ m. IsAnonymous m.1) messages
    → HasRoles server.clients
    → HasRoles (handle_clients B messages server).1.clients
unfolding handle_clients
handle_clients-HasRoles B [] server a h = h
handle_clients-HasRoles B ((now, m) ∷ messages) server a h =
    then-HasRoles (step B now m server) (handle_clients B messages)
      (step-HasRoles B now m server a.0 h) (λ s. handle_clients-HasRoles B messages s a.1)
