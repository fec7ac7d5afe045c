-- ===== src/Sink/Bytes.antt =====
-- `write_to_chunk` and `read_from_chunk` of api/aggregator.hpp: one piece of a transfer between a
-- chunk's bytes and the caller's buffer.
pub mod Laws
use colony_fs.Base.{
  ℕ, ◌+◌, ◌-◌, ◌%◌, List, ◌++◌, Bool, if◌then◌else◌, ltb, leb, length, take, drop, replicate, ◌&&◌,
}
use colony_fs.Base.Outcome.{Outcome, ok, undefined}
use colony_fs.Sink.Copy.{size_mod}

-- `vector::resize`: new bytes are zero.
unfoldable pub resize : ℕ → List ℕ → List ℕ
resize n xs = if ltb (length xs) n then xs ++ replicate (n - length xs) 0 else take n xs

-- `n` bytes from `offset`.
abbrev pub slice : ℕ → ℕ → List ℕ → List ℕ
slice offset n xs = take n (drop offset xs)

-- `memcpy(to + to_offset, from + from_offset, n)`: undefined where it leaves one of the two.
unfoldable pub memcpy : List ℕ → ℕ → List ℕ → ℕ → ℕ → Outcome (List ℕ)
memcpy to to_offset from from_offset n =
    if leb (to_offset + n) (length to) && leb (from_offset + n) (length from)
    then ok (take to_offset to ++ (slice from_offset n from ++ drop (to_offset + n) to))
    else undefined

-- The chunk is made long enough first.
unfoldable pub write_to_chunk : List ℕ → List ℕ → ℕ → ℕ → ℕ → Outcome (List ℕ)
unfolding resize memcpy
write_to_chunk destination source destination_offset source_offset chunk_delta =
    let required_size = (destination_offset + chunk_delta) % size_mod in
    let chunk_buffer =
      if ltb (length destination) required_size
      then resize required_size destination
      else destination in
    memcpy chunk_buffer destination_offset source source_offset chunk_delta

-- The assertion compares the length of the piece alone with the chunk.
unfoldable pub read_from_chunk : List ℕ → List ℕ → ℕ → ℕ → ℕ → Outcome (List ℕ)
unfolding memcpy
read_from_chunk source destination source_offset destination_offset chunk_delta =
    if leb chunk_delta (length source)
    then memcpy destination destination_offset source source_offset chunk_delta
    else undefined
