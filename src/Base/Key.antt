-- ===== src/Base/Key.antt =====
-- Keys of a `std::map`: a decidable equality and the order (`operator<`) in which it iterates.
use Prim.Native.Nat.{Ordering}
use Prim.Native.String.{compare}
use text.Mathlib.Text.{◌==◌ as str_eq}
use text.Mathlib.TextEquality.{eq_iff}
use mathlib.Core.Bool.{false≢true}
use colony_fs.Base.Int.{ℤ, ltb_ℤ, ℤ-discrete}
use colony_fs.Base.{String, sym, inl, inr, Bool, true, false, Bool-cases, ◌∙◌, ite}

pub record Key (K : Type 0) : Type 0 where
  pub eq : Discrete K
  pub before : K → K → Bool

unfoldable pub String-discrete : Discrete String
String-discrete s t = elim (Bool-cases (str_eq s t)) [
  | inl e ↦ yes ((eq_iff s t).0 e)
  | inr e ↦ no (λ p. false≢true (sym e ∙ (eq_iff s t).1 p))
]

abbrev pub str_before : String → String → Bool
str_before s t = elim (compare s t) [ Ordering.lt ↦ true | _ ↦ false ]

instance abbrev pub string_key : Key String
string_key = record { eq = String-discrete; before = str_before }

instance abbrev pub int_key : Key ℤ
int_key = record { eq = ℤ-discrete; before = ltb_ℤ }

-- The key of a chunk, `boost::tuple<uid, cuid>`, is compared lexicographically.
abbrev pub ChunkKey : Type 0
ChunkKey = String × ℤ

unfoldable pub ChunkKey-discrete : Discrete ChunkKey
ChunkKey-discrete = hlevel (String-discrete, ℤ-discrete)

instance abbrev pub chunk_key : Key ChunkKey
chunk_key = record {
  eq = ChunkKey-discrete;
  before = λ a b. ite (String-discrete a.0 b.0) (ltb_ℤ a.1 b.1) (str_before a.0 b.0);
}
