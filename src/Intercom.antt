-- ===== src/Intercom.antt =====
-- intercom/: the messages between clients and chunkservers, and what a chunkserver does with them.
pub mod Framing
pub mod Chunkserver
pub mod Service
pub mod Startup
pub mod Client
pub mod Network
