-- ===== src/Dht.antt =====
-- The values that the file system keeps in the distributed hash table, and the table's client.
pub mod Values
pub mod Harmony
pub mod Policies
