-- ===== src/Mistd.antt =====
-- crates/mistd: the guest's daemon.
pub mod Journal
