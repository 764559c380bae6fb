-- ===== src/Proto.antt =====
-- crates/mist-proto: the wire types, their caps and validation, frame headers and the codec.
pub mod Caps
pub mod Validate
pub mod Types
pub mod Keys
pub mod Frame
pub mod Msg
pub mod Codec
