-- ===== src/Sink/Data/RoundTrip.antt =====
-- What was written through the data sink is read back from it.
use colony_fs.Base.{ℕ, ◌+◌, ◌/◌, ◌%◌, ◌≤◌, ◌<◌, String, some, List, ◌≡◌, refl, arith, length, take}
use colony_fs.Base.Int.{int_of}
use colony_fs.Base.Key.{ChunkKey, chunk_key}
use colony_fs.Base.Outcome.{ok}
use colony_fs.Storage.Chunk.{Chunk}
use colony_fs.Cache.Basic.{or_miss}
use colony_fs.Cache.Front.{call, new_object}
use colony_fs.Cache.Sound.{IsSound}
use colony_fs.Sink.Copy.{size_mod}
use colony_fs.Sink.Bytes.Laws.{overlay}
use colony_fs.Sink.Data.{Remote, DataSink, Transfer, raise_if_missing, write, read}
use colony_fs.Sink.Data.Written.{policy, entry_key_lem, Holds, write_lem, read_lem}

module _ {W : Type 0} (remote : Remote W) where
  found :
      (path : String) (n q : ℕ) (v : Chunk) (s : DataSink W)
      → Holds remote (path, int_of n) q v s.cache
      → (s' : DataSink W) × (raise_if_missing remote path n s ≡ (ok q, s'))
        × (s'.cache.cell q ≡ some v)
  unfolding raise_if_missing call new_object
  found path n q v s h =
      let key : ChunkKey = (path, int_of n) in
      (
        record s { cache = (new_object (policy remote) key s.cache).1 },
        rw (entry_key_lem remote key, h.entry, or_miss) refl,
        ground (arith, h.sound.fresh q v),
      )

  -- On a sink with a sound cache, over any chunk policy, where between the calls no other thread uses
  -- the sink and no transfer into one of its chunks ends: a write of at most the source's bytes that
  -- ends before its chunk does succeeds, and a read of the same place, into a buffer that has room,
  -- then succeeds and puts the written bytes at the buffer's start.
  pub read-write :
      (cs size offset : ℕ) (path : String) (source out : List ℕ) (s : DataSink W)
      → 0 < cs
      → cs < size_mod
      → offset % cs + size < cs
      → size + offset < size_mod
      → size ≤ length source
      → size ≤ length out
      → IsSound (policy remote) s.cache
      → let (r, s') = write remote cs path source size offset s in
        let (r', t) = read remote cs path size offset (record { sink = s'; buffer = out }) in
        (r ≡ ok tt) × (r' ≡ ok tt) × (t.buffer ≡ overlay out 0 (take size source))
  read-write cs size offset path source out s p b i w l room sound =
      let (s2, wr, h) = write_lem remote cs size offset path source s p b i w l sound in
      let (s3, e4, c3) = found path (offset / cs) h.pointer h.value s2 h.held in
      let mid : Transfer W = record { sink = s3; buffer = out } in
      let end : Transfer W = record { sink = s3; buffer = overlay out 0 (take size source) } in
      let rd : read remote cs path size offset (record { sink = s2; buffer = out }) ≡ (ok tt, end) =
        read_lem remote cs size offset path source out h.old s2 s3 h.pointer h.value p b i w l room
          e4 c3 h.wrote_over in
      rw (wr, rd) (refl, refl, refl)
