-- ===== src/Msg.antt =====
-- The messages of the protocol: src/msg.rs.
pub mod TypeByte
pub mod Decode
pub mod Encode
pub mod AsyncIo
pub mod Parts
pub mod Body
pub mod Read
