-- ===== src/Intercom/Framing.antt =====
-- intercom/connection.hpp: a message on a socket is a header of eight characters, the size of the
-- data in hexadecimal, and the data. A character is its number. Reading a sign or a prefix "0x" is
-- left out of `parse_header`; the program writes neither.
pub mod RoundTrip
pub mod Short
pub mod Fits
use colony_fs.Base.{
  ℕ, zero, suc, ◌+◌, ◌-◌, ◌*◌, ◌/◌, ◌%◌, List, [], ◌∷◌, ◌++◌, Option, none, some, ◌≡◌, Bool, ◌&&◌,
  ◌||◌, if◌then◌else◌, ltb, leb, ◌==◌, length, take, drop, replicate,
}

-- `boost::archive` on one type, as bytes; none stands for an exception.
pub record Codec (A : Type 0) : Type 0 where
  pub encode : A → List ℕ
  pub decode : List ℕ → Option A

abbrev pub header_length : ℕ
header_length = 8

-- `std::hex <<`
abbrev pub hex_digit : ℕ → ℕ
hex_digit n = if ltb n 10 then 48 + n else 87 + n

-- A `size_t` has at most sixteen digits.
unfoldable pub digits : ℕ → ℕ → List ℕ
digits zero n = []
digits (suc fuel) n =
    let rest = digits fuel (n / 16) in
    if ltb n 16 then hex_digit n ∷ [] else rest ++ (hex_digit (n % 16) ∷ [])

-- The header, `std::setw(header_length)`, or the error of a size that does not fit.
unfoldable pub header : ℕ → Option (List ℕ)
unfolding digits
header size =
    let ds = digits 16 size in
    let text = replicate (header_length - length ds) 32 ++ ds in
    if length text == header_length then some text else none

-- `async_write`: the bytes that go to the socket.
unfoldable pub async_write : {A : Type 0} → Codec A → A → Option (List ℕ)
unfolding header
async_write codec t = elim (header (length (codec.encode t))) [
  | none ↦ none
  | some text ↦ some (text ++ codec.encode t)
]

abbrev pub digit_value : ℕ → Option ℕ
digit_value c =
    if leb 48 c && leb c 57
    then some (c - 48)
    else if leb 97 c && leb c 102
    then some (c - 87)
    else if leb 65 c && leb c 70
    then some (c - 55)
    else none

-- `std::hex >>` up to the first character that is no digit.
unfoldable pub read_digits : ℕ → List ℕ → ℕ
read_digits n [] = n
read_digits n (c ∷ cs) = elim (digit_value c) [ none ↦ n | some d ↦ read_digits (n * 16 + d) cs ]

unfoldable pub skip_space : List ℕ → List ℕ
skip_space [] = []
skip_space (c ∷ cs) =
    let rest = skip_space cs in if (c == 32) || (leb 9 c && leb c 13) then rest else c ∷ cs

abbrev pub first_digit : List ℕ → Option ℕ
first_digit [] = none
first_digit (c ∷ cs) = digit_value c

unfoldable pub parse_header : List ℕ → Option ℕ
unfolding read_digits skip_space
parse_header text = elim (first_digit (skip_space text)) [
  | none ↦ none
  | some d ↦ some (read_digits 0 (skip_space text))
]

-- `async_read` from the bytes that the socket gives, with what is left of them; none stands for an
-- error that is handed to the caller.
unfoldable pub handle_read_data : {A : Type 0} → Codec A → ℕ → List ℕ → Option (A × List ℕ)
handle_read_data codec size bytes =
    if ltb (length bytes) size then none else (elim (codec.decode (take size bytes)) [
      | none ↦ none
      | some t ↦ some (t, drop size bytes)
    ])

unfoldable pub async_read : {A : Type 0} → Codec A → List ℕ → Option (A × List ℕ)
unfolding handle_read_data
async_read codec bytes =
    if ltb (length bytes) header_length
    then none
    else (elim (parse_header (take header_length bytes)) [
      | none ↦ none
      | some size ↦ handle_read_data codec size (drop header_length bytes)
    ])
