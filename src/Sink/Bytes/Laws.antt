-- ===== src/Sink/Bytes/Laws.antt =====
-- What one piece of a write does to a chunk, and what one piece of a read sees.
use Prim.Native.Nat.{max}
use mathlib.Core.List.{append-nil}
use native.Mathlib.Nat.{mod-eq_of_lt}
use colony_fs.Base.{
  length-slice, take-append_len, drop-append_len, get_elem?-append, get_elem?-take, get_elem?-drop,
  ℕ, zero, suc, ◌+◌, ◌-◌, ◌≤◌, ◌<◌, ◌%◌, ◌≡◌, refl, true, false, ap, ◌∙◌, sym, List, [], ◌∷◌, ◌++◌,
  arith, Bool-cases, inl, inr, ltb, length, take, drop, replicate, length-append, length-take,
  length-drop, length-replicate, if◌then◌else◌, Option, some, none, get_elem?,
}
use colony_fs.Base.Outcome.{ok}
use colony_fs.Sink.Copy.{size_mod}
use colony_fs.Sink.Bytes.{resize, slice, write_to_chunk, read_from_chunk}

-- `n` bytes of `from` put over those of `to`.
abbrev pub overlay : List ℕ → ℕ → List ℕ → List ℕ
overlay to offset bytes = take offset to ++ (bytes ++ drop (offset + length bytes) to)

-- The middle of an overlay is what was put there.
slice-overlay :
    (to bytes : List ℕ) (offset : ℕ)
    → offset + length bytes ≤ length to
    → slice offset (length bytes) (overlay to offset bytes) ≡ bytes
slice-overlay to bytes offset h =
    let e : length (take offset to) ≡ offset = omega (arith, length-take offset to) in
    let d : drop offset (overlay to offset bytes) ≡ bytes ++ drop (offset + length bytes) to =
      ap (λ (n : ℕ). drop n (overlay to offset bytes)) (sym e)
      ∙ drop-append_len (take offset to) (bytes ++ drop (offset + length bytes) to) in
    rw d (take-append_len bytes (drop (offset + length bytes) to))

-- Byte `i` of an overlay.
get_elem?-overlay :
    (i : ℕ) (to bytes : List ℕ) (offset : ℕ)
    → offset ≤ length to
    → get_elem? (overlay to offset bytes) i ≡ (
        if ltb i offset
        then get_elem? to i
        else if ltb i (offset + length bytes)
        then get_elem? bytes (i - offset)
        else get_elem? to i)
get_elem?-overlay i to bytes offset h = ground (
  arith,
  get_elem?-append i (take offset to) (bytes ++ drop (offset + length bytes) to),
  get_elem?-append (i - offset) bytes (drop (offset + length bytes) to),
  get_elem?-take i offset to,
  get_elem?-drop (i - offset - length bytes) (offset + length bytes) to,
  length-take offset to,
)

abbrev zeros : ℕ → List ℕ
zeros n = replicate n 0

-- A chunk that is made longer is filled up with zeros.
abbrev pub extended : List ℕ → ℕ → List ℕ
extended xs n = xs ++ zeros (n - length xs)

length-extended : (xs : List ℕ) (n : ℕ) → length (extended xs n) ≡ max (length xs) n
length-extended xs n =
    let e : length (zeros (n - length xs)) ≡ n - length xs = length-replicate (n - length xs) 0 in
    omega (arith, length-append xs (zeros (n - length xs)), e)

get_elem?-zeros : (i n : ℕ) → get_elem? (zeros n) i ≡ (if ltb i n then some 0 else none)
get_elem?-zeros i zero = let e : ltb i 0 ≡ false = ground arith in rw e
get_elem?-zeros zero (suc n) = let e : ltb 0 (suc n) ≡ true = ground arith in rw e
get_elem?-zeros (suc i) (suc n) =
    let e : ltb (suc i) (suc n) ≡ ltb i n = ground arith in rw e (get_elem?-zeros i n)

get_elem?-beyond : (i : ℕ) (xs : List ℕ) → length xs ≤ i → get_elem? xs i ≡ none
get_elem?-beyond i [] h = refl
get_elem?-beyond zero (x ∷ xs) h = elim h [ ]
get_elem?-beyond (suc i) (x ∷ xs) h = get_elem?-beyond i xs (omega arith)

extended_enough : (xs : List ℕ) (n : ℕ) → n ≤ length xs → extended xs n ≡ xs
extended_enough xs n h = let e : n - length xs ≡ 0 = omega arith in rw e (append-nil xs)

grown :
    (d : List ℕ) (n : ℕ)
    → n < size_mod
    → (if ltb (length d) (n % size_mod) then resize (n % size_mod) d else d) ≡ extended d n
unfolding resize
grown d n w = rw (mod-eq_of_lt w) (elim (Bool-cases (ltb (length d) n)) [
  | inl e ↦ rw e
  | inr e ↦ rw e (sym (extended_enough d n (ground arith)))
])

-- A piece of a write that lies in the source, into a chunk of fewer than 2^64 bytes.
write_to_chunk_lem :
    (d s : List ℕ) (doff soff n : ℕ)
    → doff + n < size_mod
    → soff + n ≤ length s
    → write_to_chunk d s doff soff n ≡ ok (overlay (extended d (doff + n)) doff (slice soff n s))
unfolding write_to_chunk
write_to_chunk_lem d s doff soff n w h =
    rw (grown d (doff + n) w, length-slice soff n s h)
      (ground (arith, length-extended d (doff + n)))

-- The bytes of a chunk that a piece of a write was put on.
abbrev pub written : List ℕ → List ℕ → ℕ → ℕ → ℕ → ℕ → Option ℕ
written d s doff soff n i =
    if ltb i doff
    then (if ltb i (length d) then get_elem? d i else some 0)
    else if ltb i (doff + n)
    then get_elem? s (soff + (i - doff))
    else get_elem? d i

length-overlay :
    (to bytes : List ℕ) (offset : ℕ)
    → offset + length bytes ≤ length to
    → length (overlay to offset bytes) ≡ length to
length-overlay to bytes offset h = omega (
  arith,
  length-append (take offset to) (bytes ++ drop (offset + length bytes) to),
  length-append bytes (drop (offset + length bytes) to),
  length-take offset to,
  length-drop (offset + length bytes) to,
)

overlay_bytes :
    (d s : List ℕ) (doff soff n : ℕ)
    → soff + n ≤ length s
    → (i : ℕ)
    → get_elem? (overlay (extended d (doff + n)) doff (slice soff n s)) i
      ≡ written d s doff soff n i
overlay_bytes d s doff soff n h i =
    rw
      (
        get_elem?-overlay i (extended d (doff + n)) (slice soff n s) doff
            (omega (arith, length-extended d (doff + n))),
        length-slice soff n s h,
        get_elem?-take (i - doff) n (drop soff s),
        get_elem?-drop (i - doff) soff s,
        get_elem?-append i d (zeros (doff + n - length d)),
        get_elem?-zeros (i - length d) (doff + n - length d),
      )
      (ground (arith, get_elem?-beyond i d))

-- A piece of a write that lies in the source, and ends below 2^64 in the chunk, puts the source's
-- bytes at their place and keeps every other byte; a gap is filled with zeros, and the chunk is as
-- long as it was or ends with the piece.
pub write_to_chunk-bytes :
    (d s : List ℕ) (doff soff n : ℕ)
    → doff + n < size_mod
    → soff + n ≤ length s
    → (r : List ℕ) × (write_to_chunk d s doff soff n ≡ ok r)
      × (length r ≡ max (length d) (doff + n))
      × ((i : ℕ) → get_elem? r i ≡ written d s doff soff n i)
write_to_chunk-bytes d s doff soff n w h = (
  overlay (extended d (doff + n)) doff (slice soff n s),
  write_to_chunk_lem d s doff soff n w h,
  omega (
    arith,
    length-overlay (extended d (doff + n)) (slice soff n s) doff
        (omega (arith, length-slice soff n s h, length-extended d (doff + n))),
    length-extended d (doff + n),
  ),
  λ i. overlay_bytes d s doff soff n h i,
)

-- A piece that was written to a chunk is read back from it, into any buffer that has room.
pub read_from_chunk-write_to_chunk :
    (d s buffer r : List ℕ) (doff soff boff n : ℕ)
    → doff + n < size_mod
    → soff + n ≤ length s
    → boff + n ≤ length buffer
    → write_to_chunk d s doff soff n ≡ ok r
    → read_from_chunk r buffer doff boff n ≡ ok (overlay buffer boff (slice soff n s))
unfolding read_from_chunk
read_from_chunk-write_to_chunk d s buffer r doff soff boff n w h room e =
    let big = overlay (extended d (doff + n)) doff (slice soff n s) in
    let found : r ≡ big = cc (write_to_chunk_lem d s doff soff n w h, e) in
    let ends : doff + length (slice soff n s) ≤ length (extended d (doff + n)) =
      omega (arith, length-slice soff n s h, length-extended d (doff + n)) in
    let size : length r ≡ length (extended d (doff + n)) =
      rw found (length-overlay (extended d (doff + n)) (slice soff n s) doff ends) in
    let long : length (slice soff n s) ≡ n = length-slice soff n s h in
    let same : slice doff n r ≡ slice soff n s =
      cc (slice-overlay (extended d (doff + n)) (slice soff n s) doff ends, long, found) in
    ground (arith, size, same, length-slice soff n s h, length-extended d (doff + n))
