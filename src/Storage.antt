-- ===== src/Storage.antt =====
-- storage/: the index that a chunkserver keeps of the chunks on its disk, and the disk itself.
pub mod Metadata
pub mod Chunk
pub mod File
pub mod Db
pub mod FileSystem
pub mod Util
