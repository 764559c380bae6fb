-- ===== src/Cas.antt =====
-- The content store of crates/mist-cas/src/lib.rs.
pub mod Table
pub mod Store
pub mod Blobs
pub mod Manifests
pub mod Batch
pub mod Sums
pub mod Evict
pub mod Accounts
pub mod Shrink
pub mod Versions
pub mod ReadBack
