-- ===== src/Storage/Chunk.antt =====
-- storage/chunk_data.*: a chunk of a file with its bytes, and CHUNK_SIZE of
-- storage/chunk_metadata.hpp. A byte is a number.
use colony_fs.Base.{ℕ, ◌*◌, String, List, []}
use colony_fs.Base.Int.{ℤ}
use colony_fs.Base.Key.{ChunkKey}
use colony_fs.Storage.Metadata
use colony_fs.Storage.Metadata.{Metadata}

unfoldable pub chunk_size : ℕ
chunk_size = 1024 * 1024 * 10

pub record Chunk : Type 0 where
  pub metadata : Metadata
  pub open metadata use *
  pub bytes : List ℕ

-- The constructors.
unfoldable pub default : Chunk
unfolding Metadata.unnamed
default = record { metadata = Metadata.unnamed; bytes = [] }

unfoldable pub of_text : List ℕ → Chunk
unfolding Metadata.unnamed
of_text s = record { metadata = Metadata.unnamed; bytes = s }

unfoldable pub of_name : String → ℤ → Chunk
of_name uid cuid = record { metadata = record { uid = uid; cuid = cuid }; bytes = [] }

unfoldable pub of_key : ChunkKey → Chunk
unfolding Metadata.of_key
of_key key = record { metadata = Metadata.of_key key; bytes = [] }

unfoldable pub of_bytes : String → ℤ → List ℕ → Chunk
of_bytes uid cuid bytes = record { metadata = record { uid = uid; cuid = cuid }; bytes = bytes }

unfoldable pub of_metadata : Metadata → List ℕ → Chunk
of_metadata m bytes = record { metadata = m; bytes = bytes }
