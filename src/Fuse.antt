-- ===== src/Fuse.antt =====
-- fuse/colonyfs_fusexx.*: the operations of the mounted file system.
pub mod Attribute
pub mod State
pub mod Tree
pub mod Update
pub mod Io
pub mod Sound
