-- ===== src/Base/Outcome.antt =====
-- How a C++ call ends, and calls that change a state (exceptions.hpp, and the exceptions of
-- xmlrpc/harmony.hpp, parsers/parser.hpp and of the libraries that the code lets through).
use colony_fs.Base.{◌≡◌, refl, ap, String, Bool, true, false, Option, none, some}

pub data Exception : Type 0 where
  lookup_e : Exception
  cache_miss_e : Exception
  inexistent_file_e : Exception
  invalid_file_e : Exception
  key_missing_error : Exception
  dht_error : Exception
  girerr_error : Exception
  file_open_error : Exception
  field_not_specified_error : String → Exception
  -- thrown by boost::archive on text that is no archive, and by boost::filesystem
  archive_exception : Exception
  filesystem_error : Exception

-- `blocked`: the call waits for a lock that nothing releases. `undefined`: an assertion fails, or
-- memory is touched that the program does not own.
pub data Outcome {ℓ} (A : Type ℓ) : Type ℓ where
  ok : A → Outcome A
  raise : Exception → Outcome A
  blocked : Outcome A
  undefined : Outcome A

module _ {ℓ κ} {A : Type ℓ} {B : Type κ} where
  abbrev pub and_then : Outcome A → (A → Outcome B) → Outcome B
  and_then (ok a) f = f a
  and_then (raise e) f = raise e
  and_then blocked f = blocked
  and_then undefined f = undefined

-- What was written before a call ended badly stays written, so the state comes back in each case.
abbrev pub Action : Type 0 → Type 0 → Type 0
Action S A = S → Outcome A × S

module _ {S A B : Type 0} where
  abbrev pub continue : Outcome A → (A → Action S B) → Action S B
  continue (ok a) f s = f a s
  continue (raise e) f s = (raise e, s)
  continue blocked f s = (blocked, s)
  continue undefined f s = (undefined, s)

  infixl 5 ◌>>=◌ ◌>>◌
  abbrev pub ◌>>=◌ : Action S A → (A → Action S B) → Action S B
  ◌>>=◌ m f s = let (r, s') = m s in continue r f s'

  abbrev pub ◌>>◌ : Action S A → Action S B → Action S B
  m >> k = m >>= λ _. k

module _ {S A : Type 0} where
  abbrev pub pure : A → Action S A
  pure a s = (ok a, s)

  abbrev pub fail : Outcome A → Action S A
  fail r s = (r, s)

  abbrev pub gets : (S → A) → Action S A
  gets f s = (ok (f s), s)

  -- The value of a pointer that must be there.
  abbrev pub or_undefined : Option A → Action S A
  or_undefined none s = (undefined, s)
  or_undefined (some a) s = (ok a, s)

abbrev pub modify : {S : Type 0} → (S → S) → Action S (Unit {0})
modify f s = (ok tt, f s)

-- `BOOST_ASSERT`
abbrev pub require : {S : Type 0} → Bool → Action S (Unit {0})
require true s = (ok tt, s)
require false s = (undefined, s)

module _ {S A B C : Type 0} where
  continue_assoc :
      (r : Outcome A) (f : A → Action S B) (g : B → Action S C) (s : S)
      → continue r (λ a. f a >>= g) s ≡ (let (x, s') = continue r f s in continue x g s')
  continue_assoc (ok a) f g s = refl
  continue_assoc (raise e) f g s = refl
  continue_assoc blocked f g s = refl
  continue_assoc undefined f g s = refl

  -- Calls one after another, grouped to the left.
  pub bind_assoc :
      (m : Action S A) (f : A → Action S B) (g : B → Action S C) (s : S)
      → (m >>= λ a. f a >>= g) s ≡ (m >>= f >>= g) s
  bind_assoc m f g s = let (r, s') = m s in continue_assoc r f g s'

-- A call that ends well goes on.
pub bind_ok :
    {S A B : Type 0} (m : Action S A) (f : A → Action S B) (s s' : S) (a : A)
    → m s ≡ (ok a, s')
    → (m >>= f) s ≡ f a s'
bind_ok {S = S} {A = A} m f s s' a e = ap (λ (x : Outcome A × S). continue x.0 f x.1) e
