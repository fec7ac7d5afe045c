-- ===== src/Sink/Data.antt =====
-- `aggregator<chunk_data>` of api/aggregator.hpp: the bytes of files, through the cache of chunks.
-- The chunk size is a parameter here, CHUNK_SIZE in the program.
pub mod Written
pub mod RoundTrip
pub mod Sound
use colony_fs.Base.{ℕ, ◌+◌, ◌/◌, ◌%◌, String, Option, none, some, List, [], ◌∷◌, ◌≡◌, refl}
use colony_fs.Base.Int.{ℤ, int_of}
use colony_fs.Base.Key.{ChunkKey, string_key, int_key, chunk_key}
use colony_fs.Base.Map.{Map, find, insert as map_insert}
use colony_fs.Base.Outcome.{
  Outcome, ok, raise, undefined, Action, ◌>>=◌, ◌>>◌, continue, pure, fail, gets, modify,
}
use colony_fs.Storage.Metadata
use colony_fs.Storage.Chunk
use colony_fs.Storage.Chunk.{Chunk}
use colony_fs.Cache.Basic.{Cache}
use colony_fs.Cache.Policy.{Policy}
use colony_fs.Cache.Front.{
  call, subscript, load, edit, purge, purge_all, invalidate, invalidate_all,
}
use colony_fs.Sink.Copy.{copy}
use colony_fs.Sink.Bytes.{resize, write_to_chunk, read_from_chunk}

-- The callbacks of a policy for chunks.
pub record Remote (W : Type 0) : Type 0 where
  pub pre_read : Chunk → Action W Chunk
  pub on_flush : Chunk → Action W (Unit {0})
  pub on_erase : Chunk → Action W (Unit {0})
  pub on_done : Action W (Unit {0})

-- `ValueFactory<chunk_data>::NewPointer` and `get_key` beside them.
unfoldable pub chunk_policy : {W : Type 0} → Remote W → Policy ChunkKey Chunk W
unfolding Chunk.of_key Metadata.get_key
chunk_policy remote = record {
  new_pointer = Chunk.of_key;
  get_key = λ v. Metadata.get_key v.metadata;
  pre_read = remote.pre_read;
  on_flush = remote.on_flush;
  on_erase = remote.on_erase;
  on_done = remote.on_done;
}

-- `index_map` has the chunks of each file that were written through the sink.
pub record DataSink (W : Type 0) : Type 0 where
  pub index_map : Map String (Map ℤ (Unit {0}))
  pub cache : Cache ChunkKey Chunk W

-- A sink, and the buffer that a read fills.
pub record Transfer (W : Type 0) : Type 0 where
  pub sink : DataSink W
  pub buffer : List ℕ

abbrev pub or_empty : Option (Map ℤ (Unit {0})) → Map ℤ (Unit {0})
or_empty none = []
or_empty (some m) = m

module _ {W : Type 0} where
  abbrev pub in_cache : {A : Type 0} → Action (Cache ChunkKey Chunk W) A → Action (DataSink W) A
  in_cache act s = let (r, c) = act s.cache in (r, record s { cache = c })

  abbrev pub in_sink : {A : Type 0} → Action (DataSink W) A → Action (Transfer W) A
  in_sink act t = let (r, s) = act t.sink in (r, record t { sink = s })

  -- `index_map_[uid].insert(cuid)`
  unfoldable pub note_index : String → ℤ → DataSink W → DataSink W
  unfolding find map_insert
  note_index uid cuid s = record s {
    index_map = map_insert uid (map_insert cuid tt (or_empty (find uid s.index_map))) s.index_map;
  }

  -- `write_to_chunk` through a pointer.
  unfoldable pub write_piece : List ℕ → ℕ → ℕ → ℕ → ℕ → Action (DataSink W) (Unit {0})
  unfolding load edit write_to_chunk
  write_piece source chunk destination_offset source_offset chunk_delta = do
    v ← in_cache (load chunk)
    b ← fail (write_to_chunk v.bytes source destination_offset source_offset chunk_delta)
    in_cache (edit chunk (λ u. record u { bytes = b }))

  -- `read_from_chunk` through a pointer.
  unfoldable pub read_piece : ℕ → ℕ → ℕ → ℕ → Action (Transfer W) (Unit {0})
  unfolding load read_from_chunk
  read_piece chunk source_offset destination_offset chunk_delta = do
    v ← in_sink (in_cache (load chunk))
    to ← gets (λ t. t.buffer)
    b ← fail (read_from_chunk v.bytes to source_offset destination_offset chunk_delta)
    modify λ t. record t { buffer = b }

module _ {W : Type 0} (remote : Remote W) where
  unfoldable pub create_if_missing : String → ℕ → Action (DataSink W) ℕ
  unfolding subscript load note_index
  create_if_missing filepath count = do
    q ← in_cache (subscript (chunk_policy remote) (filepath, int_of count))
    v ← in_cache (load q)
    modify (note_index v.uid v.cuid)
    pure q

  unfoldable pub raise_if_missing : String → ℕ → Action (DataSink W) ℕ
  unfolding call
  raise_if_missing filepath count = in_cache (call (chunk_policy remote) (filepath, int_of count))

  module _ (chunk_size : ℕ) where
    unfoldable pub write : String → List ℕ → ℕ → ℕ → Action (DataSink W) (Unit {0})
    unfolding copy create_if_missing write_piece
    write filepath buffer size offset =
        copy chunk_size size (create_if_missing filepath) (write_piece buffer) offset

    unfoldable pub read : String → ℕ → ℕ → Action (Transfer W) (Unit {0})
    unfolding copy raise_if_missing read_piece
    read filepath size offset =
        copy chunk_size size (λ n. in_sink (raise_if_missing filepath n)) read_piece offset

    -- The loop over the later chunks has an empty body, so `old_size` has no effect.
    unfoldable pub truncate : String → ℕ → ℕ → Action (DataSink W) (Unit {0})
    unfolding raise_if_missing edit resize
    truncate filepath new_size old_size = do
      chunk ← raise_if_missing filepath (new_size / chunk_size)
      in_cache (edit chunk (λ v. record v { bytes = resize (new_size % chunk_size) v.bytes }))

    -- The loops of `rename` and `erase` have empty bodies.
    unfoldable pub rename : String → String → ℕ → Action (DataSink W) (Unit {0})
    rename oldpath newpath total_size = pure tt

    unfoldable pub erase : String → ℕ → Action (DataSink W) (Unit {0})
    erase filepath total_size = pure tt

  -- `BOOST_FOREACH(int i, index_map_[filename])`
  abbrev pub each_index :
      (ChunkKey → Action (Cache ChunkKey Chunk W) (Unit {0}))
      → String
      → Map ℤ (Unit {0})
      → Action (DataSink W) (Unit {0})
  each_index act filename [] = pure tt
  each_index act filename ((i, u) ∷ is) = do
    in_cache (act (filename, i))
    each_index act filename is

  -- `index_map_[filename]`: a file that has no set gets an empty one.
  unfoldable pub indices : String → Action (DataSink W) (Map ℤ (Unit {0}))
  unfolding find map_insert
  indices filename s = elim (find filename s.index_map) [
    | none ↦ (ok [], record s { index_map = map_insert filename [] s.index_map })
    | some is ↦ (ok is, s)
  ]

  unfoldable pub purge_file : String → Action (DataSink W) (Unit {0})
  unfolding purge indices
  purge_file filename = do
    is ← indices filename
    each_index (purge (chunk_policy remote)) filename is

  unfoldable pub invalidate_file : String → Action (DataSink W) (Unit {0})
  unfolding invalidate indices
  invalidate_file filename = do
    is ← indices filename
    each_index (invalidate (chunk_policy remote)) filename is

  -- `invalidate()` and `purge()`
  unfoldable pub invalidate_sink : Action (DataSink W) (Unit {0})
  unfolding invalidate_all
  invalidate_sink = in_cache (invalidate_all (chunk_policy remote))

  unfoldable pub purge_sink : Action (DataSink W) (Unit {0})
  unfolding purge_all
  purge_sink = in_cache (purge_all (chunk_policy remote))
