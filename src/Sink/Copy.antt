-- ===== src/Sink/Copy.antt =====
-- `aggregator<chunk_data>::copy` of api/aggregator.hpp: the loop that splits a transfer of `size`
-- bytes at `offset` into one step for each chunk. A `size_t` has 64 bits and wraps. The chunk size
-- is a parameter here, CHUNK_SIZE in the program.
pub mod Plan
use colony_fs.Base.{
  ℕ, zero, suc, ◌+◌, ◌-◌, ◌/◌, ◌%◌, ◌^◌, List, [], ◌∷◌, if◌then◌else◌, ltb, leb, ◌≡◌, refl, ap,
}
use colony_fs.Base.Outcome.{
  Outcome, ok, raise, blocked, undefined, Action, ◌>>=◌, ◌>>◌, continue, pure,
}

abbrev pub size_mod : ℕ
size_mod = 2 ^ 64

-- One round: which chunk, where in the chunk, where in the buffer, and how many bytes.
pub record Piece : Type 0 where
  pub count : ℕ
  pub chunk_start : ℕ
  pub buffer_start : ℕ
  pub chunk_delta : ℕ

module _ (chunk_size size : ℕ) where
  -- The body of the loop up to the calls of the policies.
  unfoldable pub piece : ℕ → ℕ → ℕ → Piece
  piece count buffer_start offset =
      let remaining = (size + size_mod - buffer_start) % size_mod in
      let chunk_start = offset % chunk_size in
      let chunk_end =
        if ltb chunk_size ((buffer_start + remaining) % size_mod)
        then chunk_size
        else (chunk_start + remaining) % size_mod in
      record {
        count = count;
        chunk_start = chunk_start;
        buffer_start = buffer_start;
        chunk_delta = (chunk_end + size_mod - chunk_start) % size_mod;
      }

  -- The rounds of `for (count = start; count <= end; count++)`.
  unfoldable pub rounds : ℕ → ℕ
  rounds offset =
      let start = offset / chunk_size in
      let end = ((size + offset) % size_mod) / chunk_size in
      if leb start end then end - start + 1 else 0

  module _ {S R : Type 0} (key_policy : ℕ → Action S R)
      (action_policy : R → ℕ → ℕ → ℕ → Action S (Unit {0})) where
    unfoldable pub copy_loop : ℕ → ℕ → ℕ → ℕ → Action S (Unit {0})
    unfolding piece
    copy_loop zero count buffer_start offset = pure tt
    copy_loop (suc n) count buffer_start offset = do
      let p = piece count buffer_start offset
      chunk ← key_policy p.count
      action_policy chunk p.chunk_start p.buffer_start p.chunk_delta
      copy_loop n (count + 1) ((buffer_start + p.chunk_delta) % size_mod) 0

    unfoldable pub copy : ℕ → Action S (Unit {0})
    unfolding copy_loop rounds
    copy offset = copy_loop (rounds offset) (offset / chunk_size) 0 offset

  -- The pieces that the loop goes through.
  unfoldable pub pieces_from : ℕ → ℕ → ℕ → ℕ → List Piece
  unfolding piece
  pieces_from zero count buffer_start offset = []
  pieces_from (suc n) count buffer_start offset =
      let p = piece count buffer_start offset in
      p ∷ pieces_from n (count + 1) ((buffer_start + p.chunk_delta) % size_mod) 0

  unfoldable pub pieces : ℕ → List Piece
  unfolding pieces_from rounds
  pieces offset = pieces_from (rounds offset) (offset / chunk_size) 0 offset

module _ {S R : Type 0} (key_policy : ℕ → Action S R)
    (action_policy : R → ℕ → ℕ → ℕ → Action S (Unit {0})) where
  abbrev pub for_each : List Piece → Action S (Unit {0})
  for_each [] = pure tt
  for_each (p ∷ ps) = do
    chunk ← key_policy p.count
    action_policy chunk p.chunk_start p.buffer_start p.chunk_delta
    for_each ps

  copy_loop-pieces :
      (chunk_size size n count buffer_start offset : ℕ)
      → copy_loop chunk_size size key_policy action_policy n count buffer_start offset
        ≡ for_each (pieces_from chunk_size size n count buffer_start offset)
  unfolding copy_loop pieces_from
  copy_loop-pieces cs size zero count b offset = refl
  copy_loop-pieces cs size (suc n) count b offset =
      let p = piece cs size count b offset in
      ap
        (λ (rest : Action S (Unit {0})). key_policy p.count >>= λ chunk.
          action_policy chunk p.chunk_start p.buffer_start p.chunk_delta >> rest)
        (copy_loop-pieces cs size n (count + 1) ((b + p.chunk_delta) % size_mod) 0)

  -- The loop runs its two policies over its pieces, one after another.
  pub copy-pieces :
      (chunk_size size offset : ℕ)
      → copy chunk_size size key_policy action_policy offset
        ≡ for_each (pieces chunk_size size offset)
  unfolding copy pieces
  copy-pieces cs size offset =
      copy_loop-pieces cs size (rounds cs size offset) (offset / cs) 0 offset
