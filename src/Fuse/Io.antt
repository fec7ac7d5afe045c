-- ===== src/Fuse/Io.antt =====
-- fuse/colonyfs_fusexx.cpp: the handlers that work on the bytes of files, and the flushes.
pub mod RoundTrip
pub mod Flushes
use colony_fs.Base.{
  ℕ, zero, suc, ◌+◌, ◌-◌, ◌%◌, ◌^◌, ◌==◌, String, List, [], ◌∷◌, Bool, if◌then◌else◌, ltb,
}
use colony_fs.Base.Int.{ℤ, pos, negsuc, ltb_ℤ, int_of}
use colony_fs.Base.Outcome.{
  Outcome, ok, blocked, and_then, Action, ◌>>=◌, ◌>>◌, continue, pure, modify,
}
use colony_fs.Cache.Policy.{Policy}
use colony_fs.Dht.Values.{Value}
use colony_fs.Storage.Chunk.{chunk_size as st_blksize_of_file}
use colony_fs.Sink.Data.{
  Remote, DataSink, Transfer, write as write_bytes, read as read_bytes, truncate as truncate_bytes,
  purge_file, invalidate_file,
}
use colony_fs.Fuse.Attribute.{Attribute, mode_or, s_ifreg, push_back}
use colony_fs.Fuse.State.{
  Env, State, in_data, get_mapped, change, entry, lookup, invalidate_entry, catch_lookup,
  validate_path, size_of,
}
use colony_fs.Fuse.Tree.{success, einval, enodev, enametoolong, register}

-- How many bytes a read of `size` bytes at `offset` moves in a file of `length` bytes.
unfoldable pub read_size : ℕ → ℕ → ℕ → ℕ
read_size length size offset =
    if ltb length offset
    then 0
    else if ltb length ((offset + size) % 2 ^ 64)
    then (length + 2 ^ 64 - offset) % 2 ^ 64
    else size

-- The size that a write leaves: `end_pointer` is an `int`.
unfoldable pub grown_size : ℤ → ℕ → ℕ → ℤ
grown_size st_size offset size =
    let end_pointer = int_of ((offset + size) % 2 ^ 64) in
    if ltb_ℤ st_size end_pointer then end_pointer else st_size

-- A call of the data sink that fills the caller's buffer.
abbrev pub into_buffer :
    {W : Type 0} → List ℕ → Action (Transfer W) (Unit {0}) → Action (State W) (List ℕ)
into_buffer buffer act s =
    let (r, t) = act (record {
      sink = record s.chunks { cache = record s.chunks.cache { world = s.world } };
      buffer = buffer;
    }) in
    (and_then r (λ _. ok t.buffer), record s { chunks = t.sink; world = t.sink.cache.world })

module _ {W : Type 0} (policy : Policy String (Value Attribute) W) (remote : Remote W)
    (chunk_size : ℕ) where
  unfoldable pub create : Env → String → ℕ → Action (State W) ℤ
  unfolding validate_path entry change register write_bytes
  create env full mode =
      if validate_path (env.filename full)
      then (do
        pair ← entry policy full
        change pair λ a. record a {
          stbuf = record a.stbuf {
            st_mode = mode_or s_ifreg mode;
            st_nlink = 1;
            st_uid = env.uid;
            st_gid = env.gid;
            st_blksize = chunk_size;
            st_mtim_sec = env.now_sec;
            st_mtim_nsec = env.now_nsec;
          };
        }
        register policy (env.parent_path full) (env.filename full)
        in_data (write_bytes remote chunk_size full [] 0 0)
        pure success)
      else pure enametoolong

  -- With the caller's buffer.
  unfoldable pub read : String → List ℕ → ℕ → ℤ → Action (State W) (ℤ × List ℕ)
  unfolding lookup get_mapped read_bytes read_size
  read full buffer size offset = do
    pair ← lookup policy full
    a ← get_mapped pair
    let length = size_of a.stbuf.st_size
    let n = read_size length size (size_of offset)
    if ltb length (size_of offset) then pure (int_of n, buffer) else (do
      b ← into_buffer buffer (read_bytes remote chunk_size full n (size_of offset))
      pure (int_of n, b))

  unfoldable pub write : String → List ℕ → ℕ → ℤ → Action (State W) ℤ
  unfolding write_bytes entry change grown_size
  write full buffer size offset = do
    in_data (write_bytes remote chunk_size full buffer size (size_of offset))
    pair ← entry policy full
    change pair λ a. record a {
      stbuf = record a.stbuf { st_size = grown_size a.stbuf.st_size (size_of offset) size };
    }
    pure (int_of size)

  abbrev shorten : String → ℕ → Action (State W) ℤ
  shorten full length = do
    pair ← entry policy full
    a ← get_mapped pair
    in_data (truncate_bytes remote chunk_size full length (size_of a.stbuf.st_size))
    change pair (λ b. record b { stbuf = record b.stbuf { st_size = pos length } })
    pure success

  unfoldable pub truncate : String → ℤ → Action (State W) ℤ
  unfolding entry get_mapped truncate_bytes change
  truncate full (negsuc n) = pure einval
  truncate full (pos n) = catch_lookup (shorten full n) (pure enodev)

-- `flush` waits for as long as ten tasks are pending, and spawns one.
unfoldable pub flush : {W : Type 0} → String → Action (State W) ℤ
flush filepath s =
    if s.counter == 0
    then (blocked, s)
    else (ok success, record s { counter = s.counter - 1; tasks = push_back s.tasks filepath })

module _ {W : Type 0} (policy : Policy String (Value Attribute) W) (remote : Remote W) where
  -- `dht_task::execute`
  unfoldable pub execute : String → Action (State W) (Unit {0})
  unfolding invalidate_entry invalidate_file purge_file
  execute filename = do
    invalidate_entry policy filename
    in_data (invalidate_file remote filename)
    in_data (purge_file remote filename)
    modify λ s. record s { counter = s.counter + 1 }

  -- The scheduler runs the oldest task, if there is one.
  unfoldable pub run_task : Action (State W) (Unit {0})
  unfolding execute
  run_task s = elim s.tasks [ [] ↦ (ok tt, s) | f ∷ fs ↦ execute f (record s { tasks = fs }) ]
