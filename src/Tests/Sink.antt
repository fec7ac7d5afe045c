-- ===== src/Tests/Sink.antt =====
-- Transfers and the data sink at concrete inputs; a chunk has ten bytes here.
use Prim.Native.Nat.{max}
use colony_fs.Base.{ℕ, length, get_elem?, ◌+◌, ◌≤◌, ◌%◌, List, [], ◌∷◌, ◌≡◌, ◌↔◌, arith}
use colony_fs.Base.Key.{chunk_key}
use colony_fs.Base.Outcome.{ok, raise, pure, fail, lookup_e}
use colony_fs.Cache.Basic.{empty}
use colony_fs.Cache.Sound.{IsSound}
use colony_fs.Cache.Sound.Misses.{KeepsKey}
use colony_fs.Cache.Sound.History.{run-IsSound}
use colony_fs.Sink.Copy.{pieces}
use colony_fs.Sink.Copy.Plan.{pieces-InBuffer, pieces-InChunk, InBuffer, InChunk}
use colony_fs.Sink.Bytes.{write_to_chunk}
use colony_fs.Sink.Bytes.Laws.{written, write_to_chunk-bytes}
use colony_fs.Sink.Data.{Remote, DataSink, chunk_policy, write, read}
use colony_fs.Sink.Data.RoundTrip.{read-write}

pieces-InBuffer_example : InBuffer 25 (pieces 10 25 7) ↔ (25 ≤ 10)
pieces-InBuffer_example = pieces-InBuffer 10 25 7 (omega arith) (omega arith) (omega arith)

pieces-InChunk_example : InChunk 10 (pieces 10 5 17) ↔ (17 % 10 + 5 ≤ 10)
pieces-InChunk_example =
    pieces-InChunk 10 5 17 (omega arith) (omega arith) (omega arith) (omega arith)

abbrev old : List ℕ
old = 1 ∷ 2 ∷ []

abbrev source : List ℕ
source = 7 ∷ 8 ∷ 9 ∷ []

write_to_chunk-bytes_example :
    (r : List ℕ) × (write_to_chunk old source 4 1 2 ≡ ok r)
    × (length r ≡ max (length old) (4 + 2))
    × ((i : ℕ) → get_elem? r i ≡ written old source 4 1 2 i)
write_to_chunk-bytes_example = write_to_chunk-bytes old source 4 1 2 (omega arith) (omega arith)

-- No chunk is on the network, and flushing is refused.
abbrev nowhere : Remote (Unit {0})
nowhere = record {
  pre_read = λ c. fail (raise lookup_e);
  on_flush = λ c. fail (raise lookup_e);
  on_erase = λ c. pure tt;
  on_done = pure tt;
}

nowhere-KeepsKey : KeepsKey (chunk_policy nowhere)
unfolding chunk_policy
nowhere-KeepsKey v v' w e = cc

unfoldable empty_sink : DataSink (Unit {0})
unfolding empty
empty_sink = record { index_map = []; cache = empty tt }

empty_sink-IsSound : IsSound (chunk_policy nowhere) empty_sink.cache
unfolding empty_sink
empty_sink-IsSound = run-IsSound (chunk_policy nowhere) [] tt nowhere-KeepsKey

read-write_example :
    let (r, s') = write nowhere 10 "song" source 3 14 empty_sink in
    let (r', t) = read nowhere 10 "song" 3 14 (record { sink = s'; buffer = 5 ∷ 5 ∷ 5 ∷ 5 ∷ [] }) in
    (r ≡ ok tt) × (r' ≡ ok tt) × (t.buffer ≡ 7 ∷ 8 ∷ 9 ∷ 5 ∷ [])
read-write_example =
    read-write nowhere 10 3 14 "song" source (5 ∷ 5 ∷ 5 ∷ 5 ∷ []) empty_sink (omega arith)
      (omega arith) (omega arith) (omega arith) (omega arith) (omega arith) empty_sink-IsSound
