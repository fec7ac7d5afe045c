-- ===== src/Controller.antt =====
-- controller/network_db.*: which hosts have a chunk.
pub mod NetworkDb
