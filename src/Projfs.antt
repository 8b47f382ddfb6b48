-- ===== src/Projfs.antt =====
-- rstr_projfs/src/projfs.rs: the directories of the projected file system, made from the metadata.
pub mod DirMap
pub mod Listed
pub mod Unlinked
pub mod Total
pub mod Examples
