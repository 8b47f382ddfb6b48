-- ===== src/Server.antt =====
-- rstr_server/src/server.rs: the relay between one receiver and one sender.
pub mod State
pub mod Handlers
pub mod Loop
pub mod Start
pub mod Connection
pub mod Clients
pub mod Roles
pub mod Index
pub mod Login
pub mod Routing
pub mod Sessions
pub mod Examples
