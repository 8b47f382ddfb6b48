-- ===== src/Meta.antt =====
-- rstr_core/src/meta.rs: the metadata of a file and the index of the files that a peer knows.
pub mod Types
pub mod Index
pub mod Lookup
pub mod Modified
pub mod Paths
pub mod Members
pub mod Received
pub mod History
pub mod Storage
pub mod Reloading
pub mod Hash
pub mod Create
pub mod Slices
pub mod Totals
pub mod Partition
pub mod Instances
pub mod Examples
