-- ===== src/Base/Keeps.antt =====
-- Invariants of calls that change a state: one rule for each way in which a call is put together.
use colony_fs.Base.{Bool, true, false, Option, none, some, if◌then◌else◌}
use colony_fs.Base.Outcome.{
  Outcome, ok, raise, blocked, undefined, Action, ◌>>=◌, continue, pure, fail, gets, modify,
  require, or_undefined,
}

-- The state has `P` after the call if it had it before, however the call ends.
pub record Keeps {S A : Type 0} (P : S → Type 0) (m : Action S A) : Type 0 where
  pub after : (s : S) → P s → P (m s).1

module _ {S A : Type 0} {P : S → Type 0} where
  pub pure-Keeps : (a : A) → Keeps P (pure a)
  pure-Keeps a = record { after = λ s p. p }

  pub fail-Keeps : (r : Outcome A) → Keeps P (fail r)
  fail-Keeps r = record { after = λ s p. p }

  pub gets-Keeps : (f : S → A) → Keeps P (gets f)
  gets-Keeps f = record { after = λ s p. p }

  pub or_undefined-Keeps : (o : Option A) → Keeps P (or_undefined o)
  or_undefined-Keeps none = record { after = λ s p. p }
  or_undefined-Keeps (some a) = record { after = λ s p. p }

  pub if-Keeps :
      (b : Bool) (m n : Action S A) → Keeps P m → Keeps P n → Keeps P (if b then m else n)
  if-Keeps true m n km kn = km
  if-Keeps false m n km kn = kn

module _ {S : Type 0} {P : S → Type 0} where
  pub modify-Keeps : (f : S → S) → ((s : S) → P s → P (f s)) → Keeps P (modify f)
  modify-Keeps f h = record { after = h }

  pub require-Keeps : (b : Bool) → Keeps P (require b)
  require-Keeps true = record { after = λ s p. p }
  require-Keeps false = record { after = λ s p. p }

module _ {S A B : Type 0} {P : S → Type 0} where
  continue-keeps :
      (r : Outcome A) (f : A → Action S B)
      → ((a : A) → Keeps P (f a))
      → (s : S) → P s
      → P (continue r f s).1
  continue-keeps (ok a) f h s p = (h a).after s p
  continue-keeps (raise e) f h s p = p
  continue-keeps blocked f h s p = p
  continue-keeps undefined f h s p = p

  pub bind-Keeps :
      (m : Action S A) (f : A → Action S B)
      → Keeps P m
      → ((a : A) → Keeps P (f a))
      → Keeps P (m >>= f)
  bind-Keeps m f km kf = record {
    after = λ s p. let (r, s') = m s in continue-keeps r f kf s' (km.after s p);
  }

-- After the call the state has `Q`, if it had `P` before.
pub record Leads {S A : Type 0} (P Q : S → Type 0) (m : Action S A) : Type 0 where
  pub leads : (s : S) → P s → Q (m s).1

module _ {S A B : Type 0} {P Q : S → Type 0} where
  continue-leads :
      (r : Outcome A) (f : A → Action S B)
      → ((s : S) → P s → Q s)
      → ((a : A) → Leads P Q (f a))
      → (s : S) → P s
      → Q (continue r f s).1
  continue-leads (ok a) f w h s p = (h a).leads s p
  continue-leads (raise e) f w h s p = w s p
  continue-leads blocked f w h s p = w s p
  continue-leads undefined f w h s p = w s p

  -- The call may end before its last step, so `P` must be at least `Q`.
  pub bind-Leads :
      (m : Action S A) (f : A → Action S B)
      → Keeps P m
      → ((s : S) → P s → Q s)
      → ((a : A) → Leads P Q (f a))
      → Leads P Q (m >>= f)
  bind-Leads m f km w kf = record {
    leads = λ s p. let (r, s') = m s in continue-leads r f w kf s' (km.after s p);
  }

pub ruleset keeping =
    (pure-Keeps, fail-Keeps, gets-Keeps, or_undefined-Keeps, if-Keeps, require-Keeps, bind-Keeps)
