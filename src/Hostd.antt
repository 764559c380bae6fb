-- ===== src/Hostd.antt =====
-- crates/mist-hostd: the host's daemon.
pub mod Conflicts
