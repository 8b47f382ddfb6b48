-- ===== src/Gui.antt =====
-- rstr_client/src/gui.rs: the window of the client program.
pub mod Types
pub mod Screen
pub mod Window
pub mod Callbacks
pub mod Shown
pub mod Examples
