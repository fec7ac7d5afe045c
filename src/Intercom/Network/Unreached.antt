-- ===== src/Intercom/Network/Unreached.antt =====
-- A chunk goes from a cache to a chunkserver that no connection reaches.
use colony_fs.Base.Outcome.{Outcome}
use colony_fs.Storage.Chunk.{Chunk}
use colony_fs.Storage.FileSystem.{FileSystem}
use colony_fs.Dht.Harmony.Table.{Table}
use colony_fs.Intercom.Network.{Network}
use colony_fs.Intercom.Network.Transfers.{Client}
