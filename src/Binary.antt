-- ===== src/Binary.antt =====
-- rstr_core/src/binary: a reader and a writer of big-endian words over byte streams.
pub mod Writer
pub mod Reader
pub mod Serialization
pub mod Words
pub mod RoundTrip
pub mod Agreement
pub mod Sizes
pub mod Examples
