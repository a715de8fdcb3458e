-- ===== src/Msg/Body.antt =====
-- The bodies of the messages: src/msg/body.rs and the modules that it declares. Each child has the
-- types and decoders of some of them, the bytes that the protocol gives their values, and that the
-- decoder accepts just those bytes.
pub mod Initial
pub mod Status
pub mod Signals
pub mod Statements
pub mod Rows
pub mod Credentials
pub mod Authentication
pub mod ErrorAndNotice
pub mod Types
pub mod TypeBytes
