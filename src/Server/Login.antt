-- ===== src/Server/Login.antt =====
-- What a login sends (rstr_server/src/server.rs): `handle_login`, branch by branch.
use rstr.Prelude.{
  ℕ, ◌≡◌, refl, ap, ◌∙◌, false, none, some, List, [], ◌∷◌, ◌++◌, arith, Option-cases, Bool-cases,
  inl, inr, if◌then◌else◌, append_assoc,
}
use rstr.Prelude.Text.{text_eq_refl}
use rstr.Prelude.Exec.{ok}
use rstr.Message.{
  BinaryMessage, LoginData, LoginType, UserStatus, login_success, notify_sender_status, message,
}
use rstr.Server.State.{
  Server, Client, ClientType, find_type, send, client_at, set_type, type_eq, exists_by_type,
}
use rstr.Server.Handlers.{announce, handle_login, matched_type, vacant}
use rstr.Server.Clients.{MayLogIn, target, token_of}

-- A client that logs in is then the one of its type, and takes no other client's type away.
find_type-set_type_self :
    (t : ClientType) (addr : ℕ) (clients : List Client) (c : Client)
    → find_type t clients ≡ none
    → client_at addr clients ≡ some c
    → find_type t (set_type addr t clients) ≡ some (record c { client_type = t })
unfolding find_type client_at set_type
find_type-set_type_self t addr [] c free at = cc
find_type-set_type_self ClientType.receiver addr (x ∷ clients) c free at =
    ground (arith, find_type-set_type_self ClientType.receiver addr clients c)
find_type-set_type_self ClientType.sender addr (x ∷ clients) c free at =
    ground (arith, find_type-set_type_self ClientType.sender addr clients c)
find_type-set_type_self ClientType.unidentified addr (x ∷ clients) c free at =
    ground (arith, find_type-set_type_self ClientType.unidentified addr clients c)

find_type-set_type_ne :
    (t u : ClientType) (addr : ℕ) (clients : List Client) (c : Client)
    → type_eq u t ≡ false
    → client_at addr clients ≡ some c
    → type_eq c.client_type t ≡ false
    → find_type t (set_type addr u clients) ≡ find_type t clients
unfolding find_type client_at set_type
find_type-set_type_ne t u addr [] c other at h = refl
find_type-set_type_ne t u addr (x ∷ clients) c other at h =
    ground (arith, find_type-set_type_ne t u addr clients c)

-- Who is told that both ends are there.
abbrev pub greeting : LoginType → Client → Server → List (ℕ × BinaryMessage)
greeting LoginType.receiver client server = elim (find_type ClientType.sender server.clients) [
  | none ↦ []
  | some s ↦ (client.outgoing, message (notify_sender_status UserStatus.connected)) ∷ []
]
greeting LoginType.sender client server = elim (find_type ClientType.receiver server.clients) [
  | none ↦ []
  | some r ↦
      if server.closed r.outgoing
      then []
      else (r.outgoing, message (notify_sender_status UserStatus.connected)) ∷ []
]

abbrev logged_in : Client → LoginType → Server → Server
logged_in client l server = record server {
  clients = set_type client.addr (target l) server.clients;
  sent = server.sent ++ (client.outgoing, message login_success) ∷ [];
}

granted_login :
    (client : Client) (login_data : LoginData) (server : Server) (l : LoginType)
    → login_data.login_type ≡ l
    → client_at client.addr server.clients ≡ some client
    → client.client_type ≡ ClientType.unidentified
    → login_data.key ≡ token_of l server
    → find_type (target l) server.clients ≡ none
    → server.closed client.outgoing ≡ false
    → handle_login client login_data server ≡ announce (target l) (logged_in client l server)
unfolding handle_login
granted_login client login_data server LoginType.receiver e at anonymous authentic free fine =
    rw (anonymous, handle_login)
      (rw (e, matched_type)
        (rw (authentic, text_eq_refl server.receiver_token)
          (rw (free, vacant) (rw at (rw (fine, send))))))
granted_login client login_data server LoginType.sender e at anonymous authentic free fine =
    rw (anonymous, handle_login)
      (rw (e, matched_type)
        (rw (authentic, text_eq_refl server.sender_token)
          (rw (free, vacant) (rw at (rw (fine, send))))))

abbrev greeted : Client → LoginType → Server → Server
greeted client l server = record server {
  clients = set_type client.addr (target l) server.clients;
  sent = server.sent ++ ((client.outgoing, message login_success) ∷ greeting l client server);
}

module _ (client : Client) (server : Server)
    (at : client_at client.addr server.clients ≡ some client)
    (anonymous : client.client_type ≡ ClientType.unidentified) where
  sender_kept :
      find_type ClientType.sender (set_type client.addr ClientType.receiver server.clients)
      ≡ find_type ClientType.sender server.clients
  sender_kept =
      find_type-set_type_ne ClientType.sender ClientType.receiver client.addr server.clients client
        refl at (ap (λ t. type_eq t ClientType.sender) anonymous)

  receiver_kept :
      find_type ClientType.receiver (set_type client.addr ClientType.sender server.clients)
      ≡ find_type ClientType.receiver server.clients
  receiver_kept =
      find_type-set_type_ne ClientType.receiver ClientType.sender client.addr server.clients client
        refl at (ap (λ t. type_eq t ClientType.receiver) anonymous)

  announced :
      (l : LoginType)
      → find_type (target l) server.clients ≡ none
      → server.closed client.outgoing ≡ false
      → announce (target l) (logged_in client l server) ≡ (ok tt, greeted client l server)
  unfolding announce
  announced LoginType.receiver free fine =
      elim (Option-cases (find_type ClientType.sender server.clients)) [
        | inl alone ↦ rw (sender_kept, exists_by_type) (rw (alone, greeted, greeting))
        | inr (s, there) ↦
            rw (sender_kept, exists_by_type)
              (rw (there, greeted, greeting)
                (rw
                  (find_type-set_type_self ClientType.receiver client.addr server.clients client
                    free at)
                  (rw (fine, send) (rw (append_assoc server.sent)))))
      ]
  announced LoginType.sender free fine =
      elim (Option-cases (find_type ClientType.receiver server.clients)) [
        | inl alone ↦ rw receiver_kept (rw (alone, greeted, greeting))
        | inr (r, there) ↦ elim (Bool-cases (server.closed r.outgoing)) [
          | inl gone ↦ rw receiver_kept (rw (there, greeted, greeting) (rw (gone, send)))
          | inr open_channel ↦ rw receiver_kept (
              rw (there, greeted, greeting)
                (rw (open_channel, send) (rw (append_assoc server.sent))))
        ]
      ]

-- A login that may be granted, of a connected client whose channel is open, is granted: the client
-- gets its type and the message of success, and then the receiver, the new one or the one that was
-- there, is told of the sender, if there is one; nothing else changes.
pub handle_login_lem :
    (client : Client) (login_data : LoginData) (server : Server)
    → client_at client.addr server.clients ≡ some client
    → MayLogIn client login_data server
    → server.closed client.outgoing ≡ false
    → handle_login client login_data server ≡ (
      ok tt,
      record server {
        clients = set_type client.addr (target login_data.login_type) server.clients;
        sent =
            server.sent
            ++ ((client.outgoing, message login_success)
                ∷ greeting login_data.login_type client server);
      },
    )
handle_login_lem client login_data server at granted fine =
    granted_login client login_data server login_data.login_type refl at granted.anonymous
      granted.authentic granted.free fine
    ∙ announced client server at granted.anonymous login_data.login_type granted.free fine
