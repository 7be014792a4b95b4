-- ===== src/Qat/Sysfs/Triple.antt =====
-- Pre- and postconditions of actions: `Q` after success, `E` after an error.
use intel_resource_drivers_f.Base.{Result, ok, err, Option, none, some}
use intel_resource_drivers_f.Qat.Types.{Error}
use intel_resource_drivers_f.Qat.Sysfs.{Host, M, ◌>>=◌, continue, lift}

module _ {W A : Type 0} where
  abbrev pub Outcome : (Host W → Type 0) → (Host W → Type 0) → Result Error A × Host W → Type 0
  Outcome Q E (ok a, h) = Q h
  Outcome Q E (err e, h) = E h

  pub record Triple (P Q E : Host W → Type 0) (m : M W A) : Type 0 where
    pub at : (h : Host W) → P h → Outcome Q E (m h)

  -- The state after the action, when both outcomes promise the same.
  pub both_outcomes : (E : Host W → Type 0) (r : Result Error A × Host W) → Outcome E E r → E r.1
  both_outcomes E (ok a, h) o = o
  both_outcomes E (err e, h) o = o

  pub Outcome-weaken :
      (Q Q' E : Host W → Type 0) (r : Result Error A × Host W)
      → ((h : Host W) → Q h → Q' h)
      → Outcome Q E r
      → Outcome Q' E r
  Outcome-weaken Q Q' E (ok a, h) f o = f h o
  Outcome-weaken Q Q' E (err e, h) f o = o

module _ {W A B : Type 0} where
  pub continue_lem :
      (Q R E : Host W → Type 0) (r : Result Error A × Host W) (f : A → M W B)
      → Outcome Q E r
      → ((a : A) → Triple Q R E (f a))
      → Outcome R E (continue r.0 f r.1)
  continue_lem Q R E (ok a, h) f o t = (t a).at h o
  continue_lem Q R E (err e, h) f o t = o

  pub bind :
      (P Q R E : Host W → Type 0) (m : M W A) (f : A → M W B)
      → Triple P Q E m
      → ((a : A) → Triple Q R E (f a))
      → Triple P R E (m >>= f)
  bind P Q R E m f t u = record { at = λ h p. continue_lem Q R E (m h) f (t.at h p) u }

module _ {W A : Type 0} where
  pub lift_lem : (P : Host W → Type 0) (o : Option A) (e : Error) → Triple P P P (lift o e)
  lift_lem P none e = record { at = λ h p. p }
  lift_lem P (some a) e = record { at = λ h p. p }
