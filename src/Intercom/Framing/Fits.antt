-- ===== src/Intercom/Framing/Fits.antt =====
-- Which messages have a size that the header has room for.
use native.Mathlib.Nat.{pow-suc, pow-le-pow_right}
use colony_fs.Base.{
  ℕ, zero, suc, ◌/◌, ◌%◌, ◌^◌, ◌-◌, ◌<◌, ◌≤◌, List, [], ◌∷◌, ◌++◌, none, some, ◌≡◌, ◌↔◌, ap, arith,
  ltb, length, length-append, length-replicate, replicate, Bool-cases, Option-cases, inl, inr,
}
use colony_fs.Intercom.Framing.{Codec, header_length, hex_digit, digits, header, async_write}
use colony_fs.Intercom.Framing.RoundTrip.{header-some, padded, async_write-some}

below-digits : (fuel n : ℕ) → n < 16 ^ fuel → n < 16 ^ length (digits fuel n)
unfolding digits
below-digits zero n h = h
below-digits (suc fuel) n h = elim (Bool-cases (ltb n 16)) [
  | inl e ↦ rw e (ground arith)
  | inr e ↦
      let rest = below-digits fuel (n / 16) (omega (arith, pow-suc 16 fuel)) in
      let ds = digits fuel (n / 16) in
      let one : length (ds ++ (hex_digit (n % 16) ∷ [])) ≡ suc (length ds) =
        omega (arith, length-append ds (hex_digit (n % 16) ∷ [])) in
      rw (e, one) (omega (arith, pow-suc 16 (length ds), rest))
]

header-small : (size : ℕ) (text : List ℕ) → size < 2 ^ 64 → header size ≡ some text → size < 2 ^ 32
unfolding padded
header-small size text w e =
    let (same, eight) = header-some size text e in
    let same_length : length text ≡ length (padded (digits 16 size)) = ap length same in
    let short : length (digits 16 size) ≤ 8 = omega (
      arith,
      same_length,
      eight,
      length-append (replicate (header_length - length (digits 16 size)) 32) (digits 16 size),
      length-replicate {A = ℕ} (header_length - length (digits 16 size)) 32,
    ) in
    let b = below-digits 16 size (omega (arith, w)) in
    let p = pow-le-pow_right {n = 16} (omega arith) {i = length (digits 16 size)} {j = 8} short in
    omega (arith, b, p)

-- A message of fewer than 2^64 bytes is written exactly if it has fewer than 2^32 bytes.
pub async_write-written :
    {A : Type 0} (codec : Codec A) (t : A)
    → length (codec.encode t) < 2 ^ 64
    → (length (codec.encode t) < 2 ^ 32) ↔ ((bytes : List ℕ) × (async_write codec t ≡ some bytes))
unfolding async_write
async_write-written codec t w = (
  λ small. (_, async_write-some codec t small),
  λ (bytes, e). elim (Option-cases (header (length (codec.encode t)))) [
    | inl no_header ↦ let f : none ≡ some bytes = rw (no_header, async_write) at e in cc
    | inr (text, h) ↦ header-small (length (codec.encode t)) text w h
  ],
)
