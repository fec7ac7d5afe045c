-- ===== src/Base/Int.antt =====
-- Signed integers over the native numbers, and the conversions of a 32-bit `int`.
use colony_fs.Base.{ℕ, suc, ◌+◌, ◌-◌, ◌%◌, ◌^◌, ◌≤◌, Bool, ltb, if◌then◌else◌, ℕ_discrete}

-- `negsuc n` is -(n + 1).
pub data ℤ : Type 0 where
  pos : ℕ → ℤ
  negsuc : ℕ → ℤ

unfoldable pub ℤ-discrete : Discrete ℤ
ℤ-discrete = hlevel ℕ_discrete

abbrev pub pos_part : ℤ → ℕ
pos_part (pos n) = n
pos_part (negsuc n) = 0

abbrev pub neg_part : ℤ → ℕ
neg_part (pos n) = 0
neg_part (negsuc n) = suc n

infix 50 ◌≤ℤ◌
abbrev pub ◌≤ℤ◌ : ℤ → ℤ → Type 0
a ≤ℤ b = pos_part a + neg_part b ≤ pos_part b + neg_part a

abbrev pub ltb_ℤ : ℤ → ℤ → Bool
ltb_ℤ a b = ltb (pos_part a + neg_part b) (pos_part b + neg_part a)

-- The two's complement reading of a 32-bit pattern.
abbrev pub of_pattern : ℕ → ℤ
of_pattern m = if ltb m (2 ^ 31) then pos m else negsuc (2 ^ 32 - 1 - m)

-- The conversion of a `size_t` to an `int`: its low 32 bits.
abbrev pub int_of : ℕ → ℤ
int_of n = of_pattern (n % 2 ^ 32)

-- `a + 1` on an `int`. (At 2^31 - 1 the source's sum is undefined; here it wraps.)
unfoldable pub int_succ : ℤ → ℤ
int_succ (pos n) = int_of (n + 1)
int_succ (negsuc n) = if ltb 0 n then negsuc (n - 1) else pos 0
