-- ===== src/Cache.antt =====
-- cache/: the write-back cache of a client. `Basic` is cache/basic_cache.hpp, `Front` is
-- cache/cache.hpp over a policy.
pub mod Heap
pub mod Policy
pub mod Basic
pub mod Front
pub mod Sound
pub mod View
pub mod Threads
