-- ===== src/Storage/Util.antt =====
-- storage/util.cpp: chunks on the disk of a chunkserver.
pub mod RoundTrip
pub mod History
use Prim.Native.String.{◌++◌}
use colony_fs.Base.{
  ℕ, zero, suc, String, List, [], ◌∷◌, Bool, true, false, if◌then◌else◌, length, ◌==◌,
}
use colony_fs.Base.Int.{ℤ}
use colony_fs.Base.Outcome.{
  Outcome, ok, raise, inexistent_file_e, invalid_file_e, Action, ◌>>=◌, ◌>>◌, continue, pure, fail,
  gets, modify, require,
}
use colony_fs.Storage.Metadata.{Metadata}
use colony_fs.Storage.Chunk
use colony_fs.Storage.Chunk.{Chunk}
use colony_fs.Storage.Db
use colony_fs.Storage.Db.{Db}
use colony_fs.Storage.FileSystem.{FileSystem}

-- `&front()` of a vector, which is undefined where the vector has no elements.
abbrev pub with_front : List ℕ → Outcome (List ℕ)
with_front [] = Outcome.undefined
with_front (b ∷ bs) = ok (b ∷ bs)

-- The vector is as long as the file, and its `front()` is asked for; then the assertion that all
-- bytes were read.
abbrev pub all_read : Outcome ℕ → (ℕ → List ℕ) → Outcome (List ℕ)
all_read (Outcome.ok zero) read = Outcome.undefined
all_read (Outcome.ok (suc n)) read =
    if length (read (suc n)) == suc n then ok (read (suc n)) else Outcome.undefined
all_read (Outcome.raise e) read = raise e
all_read Outcome.blocked read = Outcome.blocked
all_read Outcome.undefined read = Outcome.undefined

module _ (fs : FileSystem) where
  open fs use {
    Place, Disk, place, text, join, parent_path, filename, normalize, decimal, exists, is_directory,
    create_directories, write_file, file_size, readsome,
  }

  -- The global `prefix`, the disk, and the index that the caller passes.
  pub record Store : Type 0 where
    pub prefix : Place
    pub disk : Disk
    pub database : Db

  unfoldable pub set_prefix : Place → Action Store (Unit {0})
  set_prefix p s =
      if exists p s.disk
      then if is_directory p s.disk
        then (ok tt, record s { prefix = p })
        else (raise invalid_file_e, s)
      else (raise inexistent_file_e, s)

  -- `prefix / uid`
  unfoldable pub filepath : Metadata → Store → Place
  filepath m s = join s.prefix (place m.uid)

  -- The name of the chunk's file: `__<file name>__<cuid>` beside the path.
  unfoldable pub representation : Metadata → Store → String
  unfolding filepath
  representation m s =
      let destination = place ("__" ++ filename (filepath m s) ++ "__" ++ decimal m.cuid) in
      text (normalize (join (parent_path (filepath m s)) destination))

  -- The parent directory is made where it is missing.
  unfoldable pub make_parent : Metadata → Action Store (Unit {0})
  unfolding filepath
  make_parent m s =
      if exists (parent_path (filepath m s)) s.disk
      then (ok tt, s)
      else (let (r, d) = create_directories (parent_path (filepath m s)) s.disk in
          (r, record s { disk = d }))

  -- Whether the file opens, and the write goes through, is not asked.
  unfoldable pub deposit_chunk : Chunk → Action Store (Unit {0})
  unfolding make_parent representation
  deposit_chunk c = do
    make_parent c.metadata
    bytes ← fail (with_front c.bytes)
    modify λ s. record s {
      disk = write_file (representation c.metadata s) bytes s.disk;
      database = Db.save_chunk c.metadata (representation c.metadata s) s.database;
    }

  -- The bytes of a file: its size is asked for, and so many bytes are read.
  unfoldable pub read_file : String → Disk → Outcome (List ℕ)
  read_file name d = all_read (file_size name d) (λ n. readsome name n d)

  unfoldable pub retrieve_chunk : String → ℤ → Action Store Chunk
  unfolding Db.load_chunk read_file Chunk.of_bytes
  retrieve_chunk uid cuid = do
    d ← gets (λ s. s.database)
    name ← fail (Db.load_chunk uid cuid d)
    disk ← gets (λ s. s.disk)
    bytes ← fail (read_file name disk)
    pure (Chunk.of_bytes uid cuid bytes)

  -- The overload that takes the name as one object.
  unfoldable pub retrieve_chunk_of : Metadata → Action Store Chunk
  unfolding retrieve_chunk
  retrieve_chunk_of m = retrieve_chunk m.uid m.cuid
