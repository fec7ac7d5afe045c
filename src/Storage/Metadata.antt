-- ===== src/Storage/Metadata.antt =====
-- storage/basic_metadata.hpp and storage/chunk_metadata.*: the name of a chunk.
use colony_fs.Base.{String, Bool, ite, true, false, ◌&&◌}
use colony_fs.Base.Int.{ℤ, pos, ℤ-discrete}
use colony_fs.Base.Key.{ChunkKey, String-discrete, str_before}

pub record Metadata : Type 0 where
  pub uid : String
  pub cuid : ℤ

-- The constructor from a key, `set_key` and `get_key`.
unfoldable pub of_key : ChunkKey → Metadata
of_key key = record { uid = key.0; cuid = key.1 }

unfoldable pub set_key : Metadata → ChunkKey → Metadata
set_key m key = record m { uid = key.0; cuid = key.1 }

unfoldable pub get_key : Metadata → ChunkKey
get_key m = (m.uid, m.cuid)

-- The default constructor.
unfoldable pub unnamed : Metadata
unnamed = record { uid = "NONE"; cuid = pos 1 }

-- `operator==`
unfoldable pub same_chunk : Metadata → Metadata → Bool
same_chunk m n =
    ite (String-discrete m.uid n.uid) true false && ite (ℤ-discrete m.cuid n.cuid) true false

-- `operator<` and `operator>`, which look at the uid alone.
unfoldable pub less : Metadata → Metadata → Bool
less m n = str_before m.uid n.uid

unfoldable pub greater : Metadata → Metadata → Bool
greater m n = str_before n.uid m.uid
