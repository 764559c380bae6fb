-- ===== src/Nfs/Xdr.antt =====
-- crates/mist-nfs/src/xdr.rs: the XDR writer and reader, a module each since their methods share
-- names, and the laws that join them.
pub mod Writer
pub mod Reader
pub mod Roundtrip
pub mod ReadBack
pub mod Bounds
pub mod Patch
