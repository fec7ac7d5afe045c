-- ===== src/Intercom/Framing/Short.antt =====
-- What a socket gives before a message is there in full.
use colony_fs.Base.{
  ℕ, zero, suc, ◌+◌, ◌≤◌, ◌<◌, ◌^◌, List, [], ◌∷◌, ◌++◌, none, some, ◌≡◌, refl, ap, length-take,
  length-drop, arith, true, length, take, drop, ltb, Bool-cases, Option-cases, inl, inr,
  length-append,
}
use colony_fs.Intercom.Framing.{
  Codec, header_length, header, async_write, handle_read_data, async_read,
}
use colony_fs.Intercom.Framing.RoundTrip.{header-some, parse_header-header}

take-take_first :
    (n m : ℕ) (xs ys : List ℕ) → length xs ≡ m → m ≤ n → take m (take n (xs ++ ys)) ≡ xs
take-take_first n zero [] ys e h = refl
take-take_first n zero (x ∷ xs) ys e h = absurd (omega (arith, e))
take-take_first n (suc m) [] ys e h = absurd (omega (arith, e))
take-take_first zero (suc m) (x ∷ xs) ys e h = absurd (omega (arith, h))
take-take_first (suc n) (suc m) (x ∷ xs) ys e h =
    ap (x ∷◌) (take-take_first n m xs ys (omega (arith, e)) (omega (arith, h)))

cut_short :
    {A : Type 0} (codec : Codec A) (t : A) (text bytes : List ℕ) (n : ℕ)
    → length (codec.encode t) < 2 ^ 64
    → header (length (codec.encode t)) ≡ some text
    → text ++ codec.encode t ≡ bytes
    → n < length bytes
    → async_read codec (take n bytes) ≡ none
unfolding async_read handle_read_data
cut_short codec t text bytes n w is_text same h =
    elim (Bool-cases (ltb (length (take n bytes)) header_length)) [
      | inl less ↦ rw less refl
      | inr more ↦
          let (_, eight) = header-some (length (codec.encode t)) text is_text in
          let size : length bytes ≡ length text + length (codec.encode t) =
            let l = length-append text (codec.encode t) in rw same at l in
          let cut = length-take n bytes in
          let first : take header_length (take n bytes) ≡ text = rw (← same) (
            take-take_first n header_length text (codec.encode t) eight
              (ground (arith, more, cut))) in
          let missing : ltb (length (drop header_length (take n bytes))) (length (codec.encode t))
              ≡ true =
            ground (arith, length-drop header_length (take n bytes), cut, size, eight, h, more) in
          rw (more, first, parse_header-header (length (codec.encode t)) text w is_text, missing)
            refl
    ]

-- A socket that closes before the last byte of a message of fewer than 2^64 bytes delivers no
-- message.
pub async_read-take :
    {A : Type 0} (codec : Codec A) (t : A) (bytes : List ℕ) (n : ℕ)
    → length (codec.encode t) < 2 ^ 64
    → async_write codec t ≡ some bytes
    → n < length bytes
    → async_read codec (take n bytes) ≡ none
unfolding async_write async_read handle_read_data
async_read-take codec t bytes n w e h = elim (Option-cases (header (length (codec.encode t)))) [
  | inl no_header ↦ let f : none ≡ some bytes = rw (no_header, async_write) at e in cc
  | inr (text, is_text) ↦
      let f : some (text ++ codec.encode t) ≡ some bytes = rw (is_text, async_write) at e in
      let same : text ++ codec.encode t ≡ bytes = cc in
      cut_short codec t text bytes n w is_text same h
]
