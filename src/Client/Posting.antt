-- ===== src/Client/Posting.antt =====
-- What the methods of rstr_client/src/client.rs send into the channel of the event loop: how much
-- work it makes for the loop, and that no entry of an index in it has received chunks.
pub mod Weight
pub mod Receiver
pub mod Messages
pub mod Sender
