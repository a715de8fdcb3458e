-- ===== src/Convey.antt =====
-- src/convey.rs: the conversation between a frontend and a backend, conveyed in both directions.
pub mod State
pub mod Message
pub mod Stream
pub mod Dispatch
pub mod Conveyor
pub mod Go
pub mod Moves
pub mod Frames
pub mod Protocol
pub mod Table
pub mod Converse
pub mod Relay
pub mod Mirror
pub mod Gate
pub mod Opening
pub mod Util
pub mod Flow
pub mod Ends
pub mod Modes
