-- ===== src/Tests.antt =====
-- Each theorem at a concrete input.
pub mod Disk
pub mod Storage
pub mod Cache
pub mod Threads
pub mod Sink
pub mod Dht
pub mod Fuse
pub mod Controller
