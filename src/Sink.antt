-- ===== src/Sink.antt =====
-- The data half of api/aggregator.hpp: files as chunks in a cache.
pub mod Copy
pub mod Bytes
pub mod Data
