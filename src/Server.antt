-- ===== src/Server.antt =====
-- src/server.rs and the function `dump_msg` of src/main.rs: the server that accepts connections and
-- conveys each of them.
pub mod Platform
pub mod Setup
pub mod Client
pub mod Accepting
pub mod Ids
pub mod Counter
pub mod Progress
pub mod Story
