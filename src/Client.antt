-- ===== src/Client.antt =====
-- rstr_client/src: the receiver and the sender of the client program, and its event loop.
pub mod Types
pub mod Paths
pub mod Listing
pub mod Receiver
pub mod Chunks
pub mod Sender
pub mod Transmit
pub mod Receiving
pub mod Completing
pub mod Transfers
pub mod Starting
pub mod Keeping
pub mod Operating
pub mod Offering
pub mod Validity
pub mod Continuing
pub mod Serving
pub mod Normalizing
pub mod Ending
pub mod Contents
pub mod Whole
pub mod Requested
pub mod Resumed
pub mod Progress
pub mod Exchange
pub mod Download
pub mod Requests
pub mod Files
pub mod Sending
pub mod Posting
pub mod Samples
pub mod Examples
pub mod Runs
pub mod Fetched
