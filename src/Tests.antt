-- ===== src/Tests.antt =====
-- Concrete inputs for the theorems about crates/mist-proto, crates/mist-nfs,
-- crates/mist-replica, crates/mist-cas, crates/mist-hostd and crates/mistd.
mod Hash
mod Tables
mod Directory
mod Store
mod Wire
mod Messages
mod Contents
mod Changes
mod Sessions
