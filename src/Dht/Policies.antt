-- ===== src/Dht/Policies.antt =====
-- cache/policy/: what a cache does with the hash table and the chunkservers.
pub mod Metadata
pub mod Keys
use Prim.Native.String.{◌++◌}
use colony_fs.Base.{ℕ, String, Option, none, some, List, [], ◌∷◌, ◌≡◌, get_elem?}
use colony_fs.Base.Int.{ℤ}
use colony_fs.Base.Outcome.{
  Outcome, ok, raise, blocked, undefined, Action, ◌>>=◌, ◌>>◌, continue, pure, fail, gets, modify,
  or_undefined, key_missing_error, lookup_e,
}
use colony_fs.Storage.Chunk.{Chunk}
use colony_fs.Cache.Policy.{Policy}
use colony_fs.Dht.Values.{
  Archive, Instruction, Derived, Value, chunk_value, new_pointer, of_instruction, chunk_instruction,
  get_key, set_mapped,
}
use colony_fs.Dht.Harmony.{Server, put, get_pair, set_pair}
use colony_fs.Sink.Data.{Remote}

-- `catch (key_missing_error&) { throw lookup_e(); }`
abbrev pub as_lookup : {A : Type 0} → Outcome A → Outcome A
as_lookup (raise key_missing_error) = raise lookup_e
as_lookup r = r

module _ {W : Type 0} (server : Server W) (fuel : ℕ) (instructions : Archive Instruction) where
  module _ {T : Type 0} (derived : Derived T) where
    unfoldable pub pre_read : Value T → Action W (Value T)
    unfolding get_pair
    pre_read v w = let (r, w') = get_pair server fuel derived instructions v w in (as_lookup r, w')

    unfoldable pub on_erase : Value T → Action W (Unit {0})
    unfolding put get_key
    on_erase v = do put server fuel (get_key derived instructions v) ""; pure tt

    unfoldable pub on_flush : Value T → Action W (Unit {0})
    unfolding set_pair
    on_flush v = set_pair server fuel derived instructions v

    -- `MetadataOnFlush<T>`, with `ValueFactory<T>::NewPointer` and `get_key` of the value.
    unfoldable pub metadata_policy : Policy String (Value T) W
    unfolding new_pointer get_key pre_read on_erase on_flush
    metadata_policy = record {
      new_pointer = new_pointer derived instructions;
      get_key = get_key derived instructions;
      pre_read = pre_read;
      on_flush = on_flush;
      on_erase = on_erase;
      on_done = pure tt;
    }

-- What `DataOnFlush` uses besides the hash table: the random number of `CSScheduler::GetCS`, and
-- the calls of the client of the chunkservers (intercom/user_harmony.hpp), with the chunk that the
-- pointer they are handed denotes. A retrieval gives the chunk that the pointer denotes when the call
-- returns: as the source's calls only begin a transfer (Intercom/Network/Transfers), that is the
-- chunk as it was.
pub record Peers (W : Type 0) : Type 0 where
  pub random_index : List String → Action W ℕ
  pub retrieve_chunk : String → Chunk → Action W Chunk
  pub deposit_chunk : String → Chunk → Action W (Unit {0})

-- `CSScheduler::SetCSL` on an empty list.
abbrev pub csl : List String
csl = "carol" ∷ "bob" ∷ "eve" ∷ "mallory" ∷ []

module _ {W : Type 0} (server : Server W) (fuel : ℕ) (instructions : Archive Instruction)
    (text : Archive String) (decimal : ℤ → String) (peers : Peers W) where
  -- `CSScheduler::GetCS`
  unfoldable pub get_cs : List String → Action W String
  get_cs servers = do i ← peers.random_index servers; or_undefined (get_elem? servers i)

  unfoldable pub chunk_argument : Chunk → String
  chunk_argument c = decimal c.cuid ++ c.uid

  -- `PreRead`: asks the hash table which server has the chunk, and that server for the bytes.
  unfoldable pub read_chunk : Chunk → Action W Chunk
  unfolding get_pair of_instruction chunk_value chunk_argument
  read_chunk c = do
    info ←
        get_pair server fuel (chunk_value text) instructions
          (of_instruction (chunk_value text) instructions chunk_instruction (chunk_argument c))
    peers.retrieve_chunk info.mapped c

  -- `OnFlush`: sends the bytes to a server, and tells the hash table which.
  unfoldable pub flush_chunk : List String → Chunk → Action W (Unit {0})
  unfolding get_cs set_pair new_pointer set_mapped chunk_value chunk_argument
  flush_chunk servers c = do
    hostname ← get_cs servers
    peers.deposit_chunk hostname c
    set_pair server fuel (chunk_value text) instructions (
        set_mapped (chunk_value text) instructions hostname
          (new_pointer (chunk_value text) instructions (chunk_argument c)))

  -- `DataOnFlush`. Its own cache, which `OnDone` invalidates, stays empty: nothing else uses it.
  unfoldable pub data_policy : List String → Remote W
  unfolding read_chunk flush_chunk
  data_policy servers = record {
    pre_read = read_chunk;
    on_flush = flush_chunk servers;
    on_erase = λ c. pure tt;
    on_done = pure tt;
  }
