-- ===== src/Server/Start.antt =====
-- `main` of rstr_server/src/main.rs: the settings, and what has to succeed before connections are
-- accepted.
use rstr.Prelude.{ℕ, Bool, Option, none, some, ◌++◌, if◌then◌else◌}
use rstr.Prelude.Text.{Text, ascii}
use rstr.Prelude.Exec.{Outcome, panic}
use rstr.Meta.Storage.{Bincode, Disk}
use rstr.Server.State.{Server}
use rstr.Server.Loop.{NewServerError, new}

-- `std::env::var("RSTR_SERVER_PORT").unwrap_or(…)`
unfoldable pub port_or : Option Text → Text
port_or none = ascii "37065"
port_or (some port) = port

unfoldable pub address : Option Text → Text
unfolding port_or
address port = ascii "0.0.0.0:" ++ port_or port

unfoldable pub data_dir : Option Text → Text
data_dir none = ascii "server"
data_dir (some path) = path

-- The sockets and disks of the machine, by address and by path.
pub record Machine : Type 0 where
  pub can_bind : Text → Bool
  pub disk_at : Text → Disk
  pub closed : ℕ → Bool

-- The server that is then started; a socket that is not bound is a panic.
unfoldable pub main :
    Bincode
    → Machine
    → (port dir receiver_token sender_token : Option Text) → Outcome NewServerError Server
unfolding address data_dir new
main B machine port dir receiver_token sender_token =
    if machine.can_bind (address port)
    then new B (machine.disk_at (data_dir dir)) machine.closed receiver_token sender_token
    else panic
