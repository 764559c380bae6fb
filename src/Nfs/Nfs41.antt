-- ===== src/Nfs/Nfs41.antt =====
-- The NFSv4.1 server of crates/mist-nfs/src/nfs41.
pub mod State
pub mod Compound
pub mod Stateids
