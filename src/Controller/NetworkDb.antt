-- ===== src/Controller/NetworkDb.antt =====
-- controller/network_db.* and storage/network_metadata.hpp. The container of boost::multi_index is
-- a parameter, with the order of equal keys that its documentation gives. A pair of iterators is
-- the list of the entries between them.
pub mod Holders
use colony_fs.Base.{String, List, [], ◌∷◌, ◌++◌, ◌≡◌, ite}
use colony_fs.Base.Int.{ℤ}
use colony_fs.Base.Key.{ChunkKey, ChunkKey-discrete, String-discrete}
use colony_fs.Storage.Metadata
use colony_fs.Storage.Metadata.{Metadata, get_key}

pub record NetworkMetadata : Type 0 where
  pub basic : Metadata
  pub open basic use *
  pub host : String

-- The two constructors.
unfoldable pub network_metadata : String → ℤ → String → NetworkMetadata
network_metadata uid cuid host = record { basic = record { uid = uid; cuid = cuid }; host = host }

unfoldable pub of_basic : Metadata → String → NetworkMetadata
of_basic basic host = record { basic = basic; host = host }

abbrev pub without : String → List NetworkMetadata → List NetworkMetadata
without host [] = []
without host (c ∷ cs) = ite (String-discrete c.host host) (without host cs) (c ∷ without host cs)

-- `multi_index_container` with an index by uid and cuid, and an index by host, neither unique.
pub record Container : Type 1 where
  pub Entries : Type 0
  pub empty : Entries
  pub insert : NetworkMetadata → Entries → Entries
  -- `get<host_tag>().erase(host)`
  pub erase_host : String → Entries → Entries
  -- `get<basic_metadata_tag>().equal_range(make_tuple(uid, cuid))`
  pub equal_range : ChunkKey → Entries → List NetworkMetadata
  pub equal_range-empty : (k : ChunkKey) → equal_range k empty ≡ []
  -- An entry goes behind those with the same key.
  pub equal_range-insert :
      (k : ChunkKey) (c : NetworkMetadata) (e : Entries)
      → equal_range k (insert c e)
        ≡ ite
            (ChunkKey-discrete (get_key c.basic) k)
            (equal_range k e ++ (c ∷ []))
            (equal_range k e)
  pub equal_range-erase_host :
      (k : ChunkKey) (host : String) (e : Entries)
      → equal_range k (erase_host host e) ≡ without host (equal_range k e)

module _ (container : Container) where
  open container use {Entries, empty, insert, erase_host, equal_range}

  pub record NetworkDb : Type 0 where
    pub database : Entries

  -- `network_db::network_db`
  unfoldable pub network_db : NetworkDb
  network_db = record { database = empty }

  unfoldable pub insert_metadata : NetworkMetadata → NetworkDb → NetworkDb
  insert_metadata c d = record { database = insert c d.database }

  -- The overload on the parts.
  unfoldable pub insert_parts : String → ℤ → String → NetworkDb → NetworkDb
  unfolding network_metadata
  insert_parts uid cuid host d = record {
    database = insert (network_metadata uid cuid host) d.database;
  }

  unfoldable pub invalidate_host : String → NetworkDb → NetworkDb
  invalidate_host host d = record { database = erase_host host d.database }

  unfoldable pub find_chunk : String → ℤ → NetworkDb → List NetworkMetadata
  find_chunk uid cuid d = equal_range (uid, cuid) d.database

  -- The overload on a name.
  unfoldable pub find_chunk_of : Metadata → NetworkDb → List NetworkMetadata
  unfolding find_chunk
  find_chunk_of m d = find_chunk m.uid m.cuid d

  -- The calls that change the index.
  pub data Call : Type 0 where
    add : NetworkMetadata → Call
    add_parts : String → ℤ → String → Call
    drop_host : String → Call

  unfoldable pub apply : Call → NetworkDb → NetworkDb
  unfolding insert_metadata insert_parts invalidate_host
  apply (add c) d = insert_metadata c d
  apply (add_parts uid cuid host) d = insert_parts uid cuid host d
  apply (drop_host host) d = invalidate_host host d

  unfoldable pub run : List Call → NetworkDb → NetworkDb
  unfolding apply
  run [] d = d
  run (c ∷ cs) d = run cs (apply c d)
