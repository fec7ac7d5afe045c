-- ===== src/Intercom/Framing/RoundTrip.antt =====
-- What is written to a socket is read from it.
use native.Mathlib.Nat.{pow-suc}
use mathlib.Core.List.{append_assoc}
use colony_fs.Base.{
  ℕ, zero, suc, ◌+◌, ◌-◌, ◌*◌, ◌/◌, ◌%◌, ◌^◌, ◌≤◌, ◌<◌, List, [], ◌∷◌, ◌++◌, none, some, ◌≡◌, refl,
  ◌∙◌, ap, arith, true, false, ltb, length, take, drop, replicate, length-append, length-replicate,
  Bool-cases, Option-cases, inl, inr, take-append_len, drop-append_len, ==_iff,
}
use colony_fs.Intercom.Framing.{
  Codec, header_length, hex_digit, digits, header, async_write, digit_value, read_digits,
  skip_space, first_digit, parse_header, handle_read_data, async_read,
}

digit_value-hex_digit : (n : ℕ) → n < 16 → digit_value (hex_digit n) ≡ some n
digit_value-hex_digit n h = ground arith

abbrev AllDigits : List ℕ → Type 0
AllDigits [] = Unit {0}
AllDigits (c ∷ cs) = ((d : ℕ) × (digit_value c ≡ some d)) × AllDigits cs

AllDigits-append : (xs ys : List ℕ) → AllDigits xs → AllDigits ys → AllDigits (xs ++ ys)
AllDigits-append [] ys h g = g
AllDigits-append (x ∷ xs) ys (a, h) g = (a, AllDigits-append xs ys h g)

digits-AllDigits : (fuel n : ℕ) → AllDigits (digits fuel n)
unfolding digits
digits-AllDigits zero n = tt
digits-AllDigits (suc fuel) n = elim (Bool-cases (ltb n 16)) [
  | inl e ↦ rw e ((n, digit_value-hex_digit n (ground arith)), tt)
  | inr e ↦ rw e (
      AllDigits-append (digits fuel (n / 16)) _ (digits-AllDigits fuel (n / 16))
        ((n % 16, digit_value-hex_digit (n % 16) (omega arith)), tt))
]

-- The digits of a smaller number.
pow_less : (m n : ℕ) → n < 16 ^ suc m → n / 16 < 16 ^ m
pow_less m n h = omega (arith, pow-suc 16 m)

read_digits-append :
    (n d c : ℕ) (xs : List ℕ)
    → AllDigits xs
    → digit_value c ≡ some d
    → read_digits n (xs ++ (c ∷ [])) ≡ read_digits n xs * 16 + d
unfolding read_digits
read_digits-append n d c [] h e = rw (e, read_digits) refl
read_digits-append n d c (x ∷ xs) ((v, a), h) e =
    rw (a, read_digits) (read_digits-append (n * 16 + v) d c xs h e)

read_digits-one : (n : ℕ) → n < 16 → read_digits 0 (hex_digit n ∷ []) ≡ n
unfolding read_digits
read_digits-one n h = rw (digit_value-hex_digit n h, read_digits) (omega arith)

read_digits-digits : (fuel n : ℕ) → n < 16 ^ fuel → read_digits 0 (digits fuel n) ≡ n
unfolding digits read_digits
read_digits-digits zero n h = let e : n ≡ 0 = omega arith in rw e refl
read_digits-digits (suc fuel) n h = elim (Bool-cases (ltb n 16)) [
  | inl e ↦ rw e (read_digits-one n (ground arith))
  | inr e ↦
      let rest = read_digits-digits fuel (n / 16) (pow_less fuel n h) in
      rw e (
        read_digits-append 0 (n % 16) (hex_digit (n % 16)) (digits fuel (n / 16))
          (digits-AllDigits fuel (n / 16)) (digit_value-hex_digit (n % 16) (omega arith))
        ∙ omega (arith, rest))
]

length-digits : (fuel k n : ℕ) → n < 16 ^ suc k → length (digits fuel n) ≤ suc k
unfolding digits
length-digits zero k n h = omega arith
length-digits (suc fuel) zero n h = let e : ltb n 16 ≡ true = ground arith in rw e (omega arith)
length-digits (suc fuel) (suc k) n h =
    let rest = length-digits fuel k (n / 16) (pow_less (suc k) n h) in
    elim (Bool-cases (ltb n 16)) [
      | inl e ↦ rw e (omega arith)
      | inr e ↦
          rw e (omega (arith, rest, length-append (digits fuel (n / 16)) (hex_digit (n % 16) ∷ [])))
    ]

first_digit-append :
    (xs ys : List ℕ) (d : ℕ) → first_digit xs ≡ some d → first_digit (xs ++ ys) ≡ some d
first_digit-append [] ys d e = cc
first_digit-append (x ∷ xs) ys d e = e

-- Any number has a digit.
digits-first : (fuel n : ℕ) → (d : ℕ) × (first_digit (digits (suc fuel) n) ≡ some d)
unfolding digits
digits-first zero n = elim (Bool-cases (ltb n 16)) [
  | inl e ↦ rw e (n, digit_value-hex_digit n (ground arith))
  | inr e ↦ rw e (n % 16, digit_value-hex_digit (n % 16) (omega arith))
]
digits-first (suc fuel) n =
    let (d, rest) = digits-first fuel (n / 16) in
    elim (Bool-cases (ltb n 16)) [
      | inl e ↦ rw e (n, digit_value-hex_digit n (ground arith))
      | inr e ↦ rw e (d, first_digit-append (digits (suc fuel) (n / 16)) _ d rest)
    ]

skip_space-replicate : (k : ℕ) (xs : List ℕ) → skip_space (replicate k 32 ++ xs) ≡ skip_space xs
unfolding skip_space
skip_space-replicate zero xs = refl
skip_space-replicate (suc k) xs = skip_space-replicate k xs

skip_space-AllDigits : (xs : List ℕ) → AllDigits xs → skip_space xs ≡ xs
unfolding skip_space
skip_space-AllDigits [] h = refl
skip_space-AllDigits (c ∷ cs) ((d, e), h) = ground arith

abbrev spaces : ℕ → List ℕ
spaces n = replicate n 32

-- The text of a header.
unfoldable pub padded : List ℕ → List ℕ
padded ds = replicate (header_length - length ds) 32 ++ ds

pub header-some :
    (size : ℕ) (text : List ℕ)
    → header size ≡ some text
    → (text ≡ padded (digits 16 size)) × (length text ≡ header_length)
unfolding header padded
header-some size text e = ground (arith, ==_iff (length (padded (digits 16 size))) header_length)

skip_space-padded : (fuel size : ℕ) → skip_space (padded (digits fuel size)) ≡ digits fuel size
unfolding padded
skip_space-padded fuel size =
    skip_space-replicate (header_length - length (digits fuel size)) (digits fuel size)
    ∙ skip_space-AllDigits (digits fuel size) (digits-AllDigits fuel size)

pub parse_header-header :
    (size : ℕ) (text : List ℕ)
    → size < 2 ^ 64
    → header size ≡ some text
    → parse_header text ≡ some size
unfolding parse_header
parse_header-header size text w e =
    let (same, _) = header-some size text e in
    let (d, f) = digits-first 15 size in
    let h : size < 16 ^ 16 = omega arith in
    rw (same, parse_header, skip_space-padded 16 size, f)
      (rw (same, skip_space-padded 16 size) (ap some (read_digits-digits 16 size h)))

-- A message that begins with a header of its size.
read-framed :
    {A : Type 0} (codec : Codec A) (t : A) (text rest : List ℕ)
    → length (codec.encode t) < 2 ^ 64
    → header (length (codec.encode t)) ≡ some text
    → codec.decode (codec.encode t) ≡ some t
    → async_read codec (text ++ (codec.encode t ++ rest)) ≡ some (t, rest)
unfolding async_read handle_read_data
read-framed codec t text rest w e back =
    let data_bytes = codec.encode t in
    let (_, eight) = header-some (length data_bytes) text e in
    let enough : ltb (length (text ++ (data_bytes ++ rest))) header_length ≡ false =
      ground (arith, length-append text (data_bytes ++ rest)) in
    let first : take header_length (text ++ (data_bytes ++ rest)) ≡ text =
      rw (← eight) (take-append_len text (data_bytes ++ rest)) in
    let then_data : drop header_length (text ++ (data_bytes ++ rest)) ≡ data_bytes ++ rest =
      rw (← eight) (drop-append_len text (data_bytes ++ rest)) in
    let all : ltb (length (data_bytes ++ rest)) (length data_bytes) ≡ false =
      ground (arith, length-append data_bytes rest) in
    rw (enough, first, parse_header-header (length data_bytes) text w e)
      (rw (then_data, all, take-append_len data_bytes rest, back)
        (rw then_data (ap (λ (r : List ℕ). some (t, r)) (drop-append_len data_bytes rest))))

-- A message that was written, of fewer than 2^64 bytes, is read from the socket, if the archive
-- reads back what it wrote, and what follows the message stays there.
pub async_read-async_write :
    {A : Type 0} (codec : Codec A) (t : A) (bytes rest : List ℕ)
    → length (codec.encode t) < 2 ^ 64
    → async_write codec t ≡ some bytes
    → codec.decode (codec.encode t) ≡ some t
    → async_read codec (bytes ++ rest) ≡ some (t, rest)
unfolding async_write
async_read-async_write codec t bytes rest w e back =
    elim (Option-cases (header (length (codec.encode t)))) [
      | inl no_header ↦ let f : none ≡ some bytes = rw (no_header, async_write) at e in cc
      | inr (text, h) ↦
          let f : some (text ++ codec.encode t) ≡ some bytes = rw (h, async_write) at e in
          let same : text ++ codec.encode t ≡ bytes = cc in
          rw (← same, append_assoc text (codec.encode t) rest)
            (read-framed codec t text rest w h back)
    ]

length-padded : (ds : List ℕ) → length ds ≤ header_length → length (padded ds) ≡ header_length
unfolding padded
length-padded ds h =
    let n = header_length - length ds in
    let e : length (spaces n) ≡ n = length-replicate n 32 in
    omega (arith, length-append (spaces n) ds, e)

header_fits : (size : ℕ) → size < 2 ^ 32 → header size ≡ some (padded (digits 16 size))
unfolding header padded
header_fits size w =
    let e = length-padded (digits 16 size) (length-digits 16 7 size (omega arith)) in
    ground (arith, e)

-- A message of fewer than 2^32 bytes fits its header, so it is written.
pub async_write-some :
    {A : Type 0} (codec : Codec A) (t : A)
    → length (codec.encode t) < 2 ^ 32
    → async_write codec t ≡ some (padded (digits 16 (length (codec.encode t))) ++ codec.encode t)
unfolding async_write
async_write-some codec t w = rw (header_fits (length (codec.encode t)) w, async_write) refl
