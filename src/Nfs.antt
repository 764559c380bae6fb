-- ===== src/Nfs.antt =====
-- crates/mist-nfs: XDR, the ONC-RPC message layer, file handles and the NFSv4.1 state tables.
pub mod Xdr
pub mod Rpc
pub mod Handle
pub mod Nfs41
