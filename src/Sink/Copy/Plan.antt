-- ===== src/Sink/Copy/Plan.antt =====
-- Which pieces a transfer has.
use native.Mathlib.Nat.{
  mod-eq_of_lt, div-add-mod, mul-add-div, mod-lt, div-eq_of_lt, div-eq-sub-div, zero-mod,
  lt-div-mul-add,
}
use colony_fs.Base.{
  ℕ, zero, suc, ◌+◌, ◌-◌, ◌*◌, ◌/◌, ◌%◌, ◌≤◌, ◌<◌, List, [], ◌∷◌, ◌≡◌, ◌↔◌, arith, if◌then◌else◌,
  ltb, ◌∙◌, ap, Bool-cases, dec_le, inl, inr,
}
use colony_fs.Sink.Copy.{Piece, size_mod, piece, rounds, pieces_from, pieces}

-- The index of the last chunk, by the place in the first one.
end_chunk :
    (cs size offset : ℕ)
    → 0 < cs
    → size + offset < size_mod
    → ((size + offset) % size_mod) / cs ≡ offset / cs + (offset % cs + size) / cs
end_chunk cs size offset p h =
    ap (λ (n : ℕ). n / cs)
      (mod-eq_of_lt h
        ∙ let e : size + offset ≡ cs * (offset / cs) + (offset % cs + size) =
            omega (arith, div-add-mod offset cs) in
          e)
    ∙ mul-add-div p (offset / cs) (offset % cs + size)

rounds_lem :
    (cs size offset : ℕ)
    → 0 < cs
    → size + offset < size_mod
    → rounds cs size offset ≡ (offset % cs + size) / cs + 1
unfolding rounds
rounds_lem cs size offset p h = ground (arith, end_chunk cs size offset p h)

-- A transfer of at most one chunk's bytes touches one chunk, or two.
rounds_small :
    (cs size offset : ℕ)
    → 0 < cs
    → size ≤ cs
    → size + offset < size_mod
    → rounds cs size offset ≡ (if ltb (offset % cs + size) cs then 1 else 2)
rounds_small cs size offset p s h = ground (
  arith,
  rounds_lem cs size offset p h,
  mod-lt offset p,
  div-eq_of_lt {n = offset % cs + size} {m = cs},
  div-eq_of_lt {n = offset % cs + size - cs} {m = cs},
  div-eq-sub-div {m = cs} {n = offset % cs + size},
)

piece_first :
    (cs size count offset : ℕ)
    → 0 < cs
    → cs < size_mod
    → size ≤ cs
    → size + offset < size_mod
    → piece cs size count 0 offset
      ≡ record { count = count; chunk_start = offset % cs; buffer_start = 0; chunk_delta = size }
unfolding piece
piece_first cs size count offset p b s h = ground arith

piece_second :
    (cs size count : ℕ)
    → 0 < cs
    → cs < size_mod
    → size ≤ cs
    → piece cs size count size 0
      ≡ record { count = count; chunk_start = 0; buffer_start = size; chunk_delta = 0 }
unfolding piece
piece_second cs size count p b s = ground arith

-- A transfer of at most one chunk's bytes is done whole in the first chunk that it touches, also
-- where it passes that chunk's end; a second round, if there is one, moves no byte.
pub pieces_small :
    (cs size offset : ℕ)
    → 0 < cs
    → cs < size_mod
    → size ≤ cs
    → size + offset < size_mod
    → pieces cs size offset
      ≡ record {
        count = offset / cs;
        chunk_start = offset % cs;
        buffer_start = 0;
        chunk_delta = size;
      }
        ∷ (if ltb (offset % cs + size) cs
            then []
            else record {
              count = offset / cs + 1;
              chunk_start = 0;
              buffer_start = size;
              chunk_delta = 0;
            }
              ∷ [])
unfolding pieces
pieces_small cs size offset p b s h =
    let first = piece_first cs size (offset / cs) offset p b s h in
    let q = piece cs size (offset / cs) 0 offset in
    let next : (0 + q.chunk_delta) % size_mod ≡ size =
      rw (ap (λ (r : Piece). r.chunk_delta) first) (omega arith) in
    elim (Bool-cases (ltb (offset % cs + size) cs)) [
      | inl e ↦ rw (rounds_small cs size offset p s h, e) (rw first)
      | inr e ↦
          rw (rounds_small cs size offset p s h, e)
            (rw (first, next, piece_second cs size (offset / cs + 1) p b s))
    ]

-- Every piece ends within the caller's buffer.
abbrev pub InBuffer : ℕ → List Piece → Type 0
InBuffer size [] = Unit {0}
InBuffer size (p ∷ ps) = (p.buffer_start + p.chunk_delta ≤ size) × InBuffer size ps

-- Every piece ends within its chunk.
abbrev pub InChunk : ℕ → List Piece → Type 0
InChunk cs [] = Unit {0}
InChunk cs (p ∷ ps) = (p.chunk_start + p.chunk_delta ≤ cs) × InChunk cs ps

-- In a transfer of more than one chunk's bytes each round goes on to its chunk's end.
piece_long :
    (cs size count b offset : ℕ)
    → 0 < cs
    → cs < size
    → b ≤ size
    → size < size_mod
    → ((piece cs size count b offset).chunk_delta ≡ cs - offset % cs)
      × ((piece cs size count b offset).buffer_start ≡ b)
unfolding piece
piece_long cs size count b offset p l w h = ground (arith, mod-lt offset p)

InBuffer-long :
    (cs size n count b offset : ℕ)
    → 0 < cs
    → cs < size
    → b ≤ size
    → size < size_mod
    → InBuffer size (pieces_from cs size (suc n) count b offset)
    → b + suc n * cs ≤ size + offset % cs
unfolding pieces_from
InBuffer-long cs size zero count b offset p l w h i =
    omega (arith, piece_long cs size count b offset p l w h, i.0, mod-lt offset p)
InBuffer-long cs size (suc n) count b offset p l w h i =
    let q = piece cs size count b offset in
    let (d, e) = piece_long cs size count b offset p l w h in
    let next : (b + q.chunk_delta) % size_mod ≡ b + q.chunk_delta = omega (arith, i.0, e) in
    let rest =
      InBuffer-long cs size n (count + 1) (b + q.chunk_delta) 0 p l (omega (arith, i.0, e)) h
        (rw next at i.1) in
    omega (arith, rest, d, mod-lt offset p, zero-mod cs)

-- The copy stays within the caller's buffer exactly when the transfer has at most one chunk's
-- bytes.
pub pieces-InBuffer :
    (cs size offset : ℕ)
    → 0 < cs
    → cs < size_mod
    → size + offset < size_mod
    → InBuffer size (pieces cs size offset) ↔ (size ≤ cs)
unfolding pieces
pieces-InBuffer cs size offset p b h = (only, inside)
  where
    whole : ℕ
    whole = (offset % cs + size) / cs

    only : InBuffer size (pieces cs size offset) → size ≤ cs
    only i = elim (dec_le size cs) [
      | yes s ↦ s
      | no l ↦
          let e : rounds cs size offset ≡ suc whole =
            omega (arith, rounds_lem cs size offset p h) in
          let t =
            InBuffer-long cs size whole (offset / cs) 0 offset p (omega arith) (omega arith)
              (omega arith) (rw e at i) in
          let u = lt-div-mul-add {a = offset % cs + size} p in absurd (omega arith)
    ]

    inside : size ≤ cs → InBuffer size (pieces cs size offset)
    inside s = rw (pieces_small cs size offset p b s h) (ground arith)

-- Where a chunk has some bytes and its size is a size_t, and size + offset does not wrap: the rounds
-- of a transfer of at most one chunk's bytes stay within their chunks exactly when the transfer ends
-- no later than the first chunk that it touches.
pub pieces-InChunk :
    (cs size offset : ℕ)
    → 0 < cs
    → cs < size_mod
    → size ≤ cs
    → size + offset < size_mod
    → InChunk cs (pieces cs size offset) ↔ (offset % cs + size ≤ cs)
pieces-InChunk cs size offset p b s h = rw (pieces_small cs size offset p b s h) (ground arith)
