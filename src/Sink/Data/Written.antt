-- ===== src/Sink/Data/Written.antt =====
-- What a write through the data sink leaves in its cache, and a read of that.
use colony_fs.Base.{
  ℕ, ◌+◌, ◌/◌, ◌%◌, ◌≤◌, ◌<◌, String, some, List, ◌≡◌, refl, ap, arith, length, take, ltb, true,
}
use colony_fs.Base.Int.{int_of}
use colony_fs.Base.Key.{ChunkKey, chunk_key}
use colony_fs.Base.Map.{find}
use colony_fs.Base.Outcome.{Outcome, ok, Action}
use colony_fs.Storage.Metadata
use colony_fs.Storage.Chunk
use colony_fs.Storage.Chunk.{Chunk}
use colony_fs.Cache.Heap.{put}
use colony_fs.Cache.Basic.{Cache}
use colony_fs.Cache.Policy.{Policy}
use colony_fs.Cache.Front.{subscript, load, store, edit, entry_key}
use colony_fs.Cache.Sound.{IsSound}
use colony_fs.Cache.Sound.Operations.{subscript-IsSound, edit-IsSound}
use colony_fs.Cache.View.Subscript.{subscript-entry}
use colony_fs.Sink.Copy.{copy, size_mod, copy-pieces}
use colony_fs.Sink.Copy.Plan.{pieces_small}
use colony_fs.Sink.Bytes.{write_to_chunk}
use colony_fs.Sink.Bytes.Laws.{overlay, write_to_chunk-bytes, read_from_chunk-write_to_chunk}
use colony_fs.Sink.Data.{
  Remote, DataSink, Transfer, chunk_policy, create_if_missing, raise_if_missing, write_piece,
  read_piece, note_index, write, read, in_sink,
}

module _ {S R : Type 0} (key_policy : ℕ → Action S R)
    (action_policy : R → ℕ → ℕ → ℕ → Action S (Unit {0})) where
  -- A transfer that ends before its chunk does is one call of each policy.
  copy_one :
      (cs size offset : ℕ) (q : R) (s s' s'' : S)
      → 0 < cs
      → cs < size_mod
      → offset % cs + size < cs
      → size + offset < size_mod
      → key_policy (offset / cs) s ≡ (ok q, s')
      → action_policy q (offset % cs) 0 size s' ≡ (ok tt, s'')
      → copy cs size key_policy action_policy offset s ≡ (ok tt, s'')
  copy_one cs size offset q s s' s'' p b i h e f =
      let w : ltb (offset % cs + size) cs ≡ true = ground arith in
      rw
        (
          copy-pieces key_policy action_policy cs size offset,
          pieces_small cs size offset p b (omega arith) h,
          w,
        )
        (rw (e, f) refl)

module _ {W : Type 0} (remote : Remote W) where
  abbrev pub policy : Policy ChunkKey Chunk W
  policy = chunk_policy remote

  pub entry_key_lem : (key : ChunkKey) → entry_key policy key ≡ key
  unfolding chunk_policy Chunk.of_key Metadata.of_key Metadata.get_key
  entry_key_lem key = refl

  -- The chunk is in the cache, and its pointer leads to a value.
  pub record Holds (key : ChunkKey) (q : ℕ) (v : Chunk) (c : Cache ChunkKey Chunk W) : Type 0 where
    pub sound : IsSound policy c
    pub entry : find key c.whole ≡ some q
    pub cell_of : c.cell q ≡ some v

  created :
      (path : String) (n : ℕ) (s : DataSink W)
      → IsSound policy s.cache
      → (q : ℕ) × (v : Chunk) × (s' : DataSink W) × (create_if_missing remote path n s ≡ (ok q, s'))
        × Holds (path, int_of n) q v s'.cache
        × (find (path, int_of n) s'.cache.dirty ≡ some q)
  unfolding create_if_missing note_index chunk_policy
  created path n s i =
      let key : ChunkKey = (path, int_of n) in
      let d = (subscript policy key s.cache).1 in
      let (q, e, f, dirty, _) = subscript-entry policy key s.cache i in
      let g : find key d.whole ≡ some q = rw (entry_key_lem key) at f in
      let j = subscript-IsSound policy key s.cache i in
      let (v, h, _) = j.live key q g in
      (
        q,
        v,
        note_index v.uid v.cuid (record s { cache = d }),
        rw e (rw (h, load) refl),
        record { sound = j; entry = g; cell_of = h },
        rw (entry_key_lem key) at dirty,
      )

  edit_lem :
      (q : ℕ) (f : Chunk → Chunk) (v : Chunk) (c : Cache ChunkKey Chunk W)
      → c.cell q ≡ some v
      → edit q f c ≡ (ok tt, record c { heap = put q (f v) c.heap })
  unfolding edit
  edit_lem q f v c e = rw (e, load) (rw (e, store) refl)

  edited :
      {key : ChunkKey} (q : ℕ) (b : List ℕ) (v : Chunk) (s : DataSink W)
      → Holds key q v s.cache
      → IsSound policy (record s.cache { heap = put q (record v { bytes = b }) s.cache.heap })
  unfolding chunk_policy
  edited q b v s h =
      let f : Chunk → Chunk = λ u. record u { bytes = b } in
      let j = edit-IsSound policy q f s.cache (λ u. refl) h.sound in
      rw (edit_lem q f v s.cache h.cell_of) at j

  wrote :
      (source : List ℕ) (q doff n : ℕ) (key : ChunkKey) (v : Chunk) (b : List ℕ) (s : DataSink W)
      → Holds key q v s.cache
      → write_to_chunk v.bytes source doff 0 n ≡ ok b
      → (s' : DataSink W) × (write_piece source q doff 0 n s ≡ (ok tt, s'))
        × Holds key q (record v { bytes = b }) s'.cache
        × (s'.cache.dirty ≡ s.cache.dirty)
  unfolding write_piece
  wrote source q doff n key v b s h e = (
    record s { cache = record s.cache { heap = put q (record v { bytes = b }) s.cache.heap } },
    rw (h.cell_of, load) (rw (e, h.cell_of, load, h.cell_of) refl),
    record { sound = edited q b v s h; entry = h.entry; cell_of = ground arith },
    refl,
  )

  fetched :
      (source out bytes : List ℕ) (q doff n : ℕ) (v v' : Chunk) (s : DataSink W)
      → s.cache.cell q ≡ some v'
      → v'.bytes ≡ bytes
      → write_to_chunk v.bytes source doff 0 n ≡ ok bytes
      → doff + n < size_mod
      → n ≤ length source
      → n ≤ length out
      → read_piece q doff 0 n (record { sink = s; buffer = out })
        ≡ (ok tt, record { sink = s; buffer = overlay out 0 (take n source) })
  unfolding read_piece
  fetched source out bytes q doff n v v' s c same e w l room =
      let r =
        read_from_chunk-write_to_chunk v.bytes source out bytes doff 0 0 n w (omega arith)
          (omega arith) e in
      rw (c, load) (rw (same, r) refl)

  abbrev with_buffer : List ℕ → Outcome ℕ × DataSink W → Outcome ℕ × Transfer W
  with_buffer out x = (x.0, record { sink = x.1; buffer = out })

  -- What a write leaves in the cache: a dirty chunk, over whose bytes the source's were put.
  pub record Written (key : ChunkKey) (doff size : ℕ) (source : List ℕ) (s : DataSink W)
      : Type 0 where
    pub pointer : ℕ
    pub value : Chunk
    pub held : Holds key pointer value s.cache
    pub dirty : find key s.cache.dirty ≡ some pointer
    pub old : List ℕ
    pub wrote_over : write_to_chunk old source doff 0 size ≡ ok value.bytes

  pub write_lem :
      (cs size offset : ℕ) (path : String) (source : List ℕ) (s : DataSink W)
      → 0 < cs
      → cs < size_mod
      → offset % cs + size < cs
      → size + offset < size_mod
      → size ≤ length source
      → IsSound policy s.cache
      → (s' : DataSink W) × (write remote cs path source size offset s ≡ (ok tt, s'))
        × Written (path, int_of (offset / cs)) (offset % cs) size source s'
  unfolding write
  write_lem cs size offset path source s p b i w l sound =
      let n = offset / cs in
      let doff = offset % cs in
      let (q, v, s1, e1, h1, d1) = created path n s sound in
      let (bytes, e2, _, _) =
        write_to_chunk-bytes v.bytes source doff 0 size (omega arith) (omega arith) in
      let (s2, e3, h2, d2) = wrote source q doff size (path, int_of n) v bytes s1 h1 e2 in
      (
        s2,
        copy_one (create_if_missing remote path) (write_piece source) cs size offset q s s1 s2 p b i
            w e1 e3,
        record {
          pointer = q;
          value = record v { bytes = bytes };
          held = h2;
          dirty = rw d2 d1;
          old = v.bytes;
          wrote_over = e2;
        },
      )

  -- A read of what was put into a chunk, once the cache gives the pointer to the chunk.
  pub read_lem :
      (cs size offset : ℕ) (path : String) (source out old : List ℕ) (s s' : DataSink W) (q : ℕ)
      (v : Chunk)
      → 0 < cs
      → cs < size_mod
      → offset % cs + size < cs
      → size + offset < size_mod
      → size ≤ length source
      → size ≤ length out
      → raise_if_missing remote path (offset / cs) s ≡ (ok q, s')
      → s'.cache.cell q ≡ some v
      → write_to_chunk old source (offset % cs) 0 size ≡ ok v.bytes
      → read remote cs path size offset (record { sink = s; buffer = out })
        ≡ (ok tt, record { sink = s'; buffer = overlay out 0 (take size source) })
  unfolding read
  read_lem cs size offset path source out old s s' q v p b i w l room asked there wrote_over =
      copy_one (λ n. in_sink (raise_if_missing remote path n)) read_piece cs size offset q
        (record { sink = s; buffer = out }) (record { sink = s'; buffer = out })
        (record { sink = s'; buffer = overlay out 0 (take size source) }) p b i w
        (ap (with_buffer out) asked)
        (fetched source out v.bytes q (offset % cs) size (record v { bytes = old }) v s' there refl
          wrote_over (omega arith) l room)
