-- ===== src/Replica.antt =====
-- crates/mist-replica: the metadata replica of one share.
pub mod Hashing
pub mod Dir
pub mod Node
pub mod Share
pub mod Links
pub mod Apply
pub mod Read
pub mod Keeps
