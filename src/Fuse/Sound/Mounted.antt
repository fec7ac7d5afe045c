-- ===== src/Fuse/Sound/Mounted.antt =====
-- The file system of fuse/colonyfs_fusexx.* over the policies of cache/policy/ that it is built
-- with.
use colony_fs.Base.{ℕ, String, List}
use colony_fs.Base.Int.{ℤ}
use colony_fs.Dht.Values.{Archive, Instruction, attribute_value}
use colony_fs.Dht.Harmony.{Server}
use colony_fs.Dht.Policies.{Peers, metadata_policy, data_policy}
use colony_fs.Sink.Data.{Remote}
use colony_fs.Fuse.Attribute.{Attribute, empty_attribute}
use colony_fs.Fuse.State.{State}
use colony_fs.Fuse.Update.{Attributes}
use colony_fs.Fuse.Sound.{Sound}
use colony_fs.Fuse.Sound.Reachable.{Reachable}

module _ {W : Type 0} (server : Server W) (fuel : ℕ) (instructions : Archive Instruction)
    (attributes : Archive Attribute) where
  -- `cache<attribute_value, MetadataOnFlush<attribute_value> >`
  abbrev pub remote_attributes : Attributes W
  remote_attributes =
      metadata_policy server fuel instructions (attribute_value attributes empty_attribute)

  -- `cache<chunk_data, DataOnFlush<chunk_data> >`
  module _ (text : Archive String) (decimal : ℤ → String) (peers : Peers W)
      (servers : List String) where
    abbrev pub remote_chunks : Remote W
    remote_chunks = data_policy server fuel instructions text decimal peers servers
