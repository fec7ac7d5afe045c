-- ===== src/Fuse/Io/RoundTrip.antt =====
-- A file that was written is read again.
use colony_fs.Base.{
  ℕ, ◌+◌, ◌%◌, ◌^◌, ◌≤◌, ◌<◌, String, some, List, ◌≡◌, refl, ◌∙◌, ap, arith, length, take, false,
  ltb,
}
use colony_fs.Base.Int.{ℤ, pos, int_of}
use colony_fs.Base.Key.{string_key, chunk_key}
use colony_fs.Base.Outcome.{Outcome, ok, Action, ◌>>=◌, pure, bind_ok}
use colony_fs.Cache.Front.{entry_key}
use colony_fs.Cache.Sound.{IsSound}
use colony_fs.Cache.Sound.Misses.{world-IsSound}
use colony_fs.Cache.View.{view}
use colony_fs.Sink.Copy.{size_mod}
use colony_fs.Sink.Bytes.Laws.{overlay}
use colony_fs.Sink.Data.{
  Remote, DataSink, Transfer, chunk_policy, write as write_bytes, read as read_bytes,
}
use colony_fs.Sink.Data.RoundTrip.{read-write}
use colony_fs.Fuse.Attribute.{Attribute}
use colony_fs.Fuse.State.{State, in_data, get_mapped, lookup, size_of}
use colony_fs.Fuse.Io.{write, read, read_size, grown_size, into_buffer}
use colony_fs.Fuse.Update.{Attributes, IsKeyed, over, current, update_lem, update_then, lookup_lem}

-- A file of fewer than 2^31 bytes reaches at least to the end of what was written, and a read of
-- so much is not cut short.
read_size-grown :
    (old offset size : ℕ)
    → old < 2 ^ 31
    → offset + size < 2 ^ 31
    → let length = size_of (grown_size (pos old) (size_of (pos offset)) size) in
      (read_size length size (size_of (pos offset)) ≡ size)
      × (ltb length (size_of (pos offset)) ≡ false)
unfolding read_size grown_size
read_size-grown old offset size o w = ground arith

module _ {W : Type 0} (policy : Attributes W) (remote : Remote W) where
  abbrev sink_of : State W → DataSink W
  sink_of s = record s.chunks { cache = record s.chunks.cache { world = s.world } }

  sink_of_same :
      (s : State W) (d : DataSink W) → s.chunks ≡ d → s.world ≡ d.cache.world → sink_of s ≡ d
  sink_of_same s d c w = rw (c, w) refl

  abbrev grown : ℕ → ℕ → Attribute → Attribute
  grown offset size a = record a {
    stbuf = record a.stbuf { st_size = grown_size a.stbuf.st_size (size_of (pos offset)) size };
  }

  abbrev with_number : ℤ → List ℕ → Action (State W) (ℤ × List ℕ)
  with_number m b = pure (m, b)

  read_tail :
      (act : Action (Transfer W) (Unit {0})) (out res : List ℕ) (s : State W) (d : DataSink W)
      (m : ℤ)
      → sink_of s ≡ d
      → (act (record { sink = d; buffer = out })).0 ≡ ok tt
      → (act (record { sink = d; buffer = out })).1.buffer ≡ res
      → ((into_buffer out act >>= with_number m) s).0 ≡ ok (m, res)
  read_tail act out res s d m same ends got = rw (same, ends, got) refl

  -- A `write` of a file that ends before its chunk does and below 2^31, on sound sinks and where
  -- the file's size was not negative and below 2^31, returns how much it wrote. A `read` of the
  -- same place, into a buffer that has room, then returns the same number, and puts the written
  -- bytes into the buffer.
  pub read-write_file :
      (cs offset size old : ℕ) (full : String) (source out : List ℕ) (s : State W)
      → 0 < cs
      → cs < size_mod
      → offset % cs + size < cs
      → offset + size < 2 ^ 31
      → size ≤ length source
      → size ≤ length out
      → IsKeyed policy
      → IsSound policy s.metadata
      → IsSound (chunk_policy remote) s.chunks.cache
      → (current policy full s).mapped.stbuf.st_size ≡ pos old
      → old < 2 ^ 31
      → let (r, s') = write policy remote cs full source size (pos offset) s in
        (r ≡ ok (pos size))
        × ((read policy remote cs full out size (pos offset) s').0
            ≡ ok (pos size, overlay out 0 (take size source)))
  unfolding write read
  read-write_file cs offset size old full source out s p b i w l room keyed sound data_sound e
        small =
      let n = size_of (pos offset) in
      let near : n ≡ offset = omega arith in
      let d0 = sink_of s in
      let (wrote, got, put_there) =
        read-write remote cs size n full source out d0 p b (rw near i) (omega arith) l room
          (world-IsSound (chunk_policy remote) s.world s.chunks.cache data_sound) in
      let d1 = (write_bytes remote cs full source size n d0).1 in
      let s1 : State W = record s { chunks = d1; world = d1.cache.world } in
      let (s2, e2, i2, v2, w2, c2) = update_lem policy full (grown offset size) s1 keyed sound in
      let key = entry_key policy full in
      let cur = current policy full s in
      let v = over (grown offset size) cur in
      let wr : write policy remote cs full source size (pos offset) s ≡ (ok (int_of size), s2) =
        bind_ok (in_data (write_bytes remote cs full source size n)) _ s s1 tt
          (ap (λ (r : Outcome (Unit {0})). (r, s1)) wrote)
        ∙ update_then policy full (grown offset size) (pure (int_of size)) s1 s2 e2 in
      let there : view s2.metadata key ≡ some v = ground (arith, v2 key) in
      let (q, s3, e3, g3, c3, w3) = lookup_lem policy full v s2 i2 there in
      let (whole, inside) = read_size-grown old offset size small w in
      let same : sink_of s3 ≡ d1 = sink_of_same s3 d1 (c3 ∙ c2) (w3 ∙ w2) in
      let whole' : read_size (size_of v.mapped.stbuf.st_size) size n ≡ size = rw e whole in
      let inside' : ltb (size_of v.mapped.stbuf.st_size) n ≡ false = rw e inside in
      let number : int_of size ≡ pos size = ground arith in
      let rd : (read policy remote cs full out size (pos offset) s2).0
          ≡ ok (int_of size, overlay out 0 (take size source)) =
        ap (λ (x : Outcome (ℤ × List ℕ) × State W). x.0)
          (bind_ok (lookup policy full) _ s2 s3 q e3 ∙ bind_ok (get_mapped q) _ s3 s3 v.mapped g3)
        ∙ rw (whole', inside')
            (read_tail (read_bytes remote cs full size n) out _ s3 d1 (int_of size) same got
              put_there) in
      rw wr (ap ok number, rw number at rd)
