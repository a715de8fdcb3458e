-- ===== src/Tests.antt =====
-- The theorems at concrete inputs, and a stream in memory for those that need one.
pub mod ListStream
mod Backend
mod Frontend
mod Bytes
mod Conversations
mod Runs
mod Liveness
mod Serving
mod Signals
