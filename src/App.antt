-- ===== src/App.antt =====
-- rstr_client/src/main.rs: the event loop of the client program, which runs the receiver or the
-- sender, and the task that reads the socket.
pub mod Paths
pub mod State
pub mod Dispatch
pub mod Loop
pub mod Adding
pub mod Emitting
pub mod Draining
pub mod Soundness
pub mod Starting
pub mod Uploading
pub mod Handling
pub mod Program
pub mod Reaching
pub mod Faults
pub mod Wire
pub mod Requesting
pub mod Samples
pub mod Examples
