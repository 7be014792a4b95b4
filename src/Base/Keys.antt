-- ===== src/Base/Keys.antt =====
-- A map holds each key once, so a walk over its entries sees what a lookup finds.
use intel_resource_drivers_f.Base.Tests.{any, Bool-cases, str_eq-cases}
use intel_resource_drivers_f.Base.Maps.{Dict, lookup, insert, has, lookup-insert}
use Prim.Native.String.{String}
use mathlib.Core.Path.{◌≡◌}
use mathlib.Core.Bool.{Bool, true, false}
use mathlib.Core.List.{[], ◌∷◌}
use mathlib.Core.Logic.{inl, inr}
use mathlib.Core.Option.{some}
use native.Mathlib.Omega.{arith}
use text.Mathlib.Text.{◌==◌ as str_eq}
use text.Mathlib.TextEquality.{eq_iff}
use text.Mathlib.TextPositions.{eq_refl}

module _ {ℓ} {V : Type ℓ} where
  abbrev pub Distinct : Dict V → Type 0
  Distinct [] = Unit
  Distinct ((k, v) ∷ m) = (has k m ≡ false) × Distinct m

  pub any_of_lookup :
      (p : String × V → Bool) (k : String) (v : V) (m : Dict V)
      → lookup k m ≡ some v
      → p (k, v) ≡ true
      → any p m ≡ true
  unfolding lookup
  any_of_lookup p k v [] e h = absurd (ground arith)
  any_of_lookup p k v ((j, w) ∷ m) e h = elim (str_eq-cases j k) [
    | inl (t, q) ↦ ground (arith, t, q)
    | inr (t, q) ↦ ground (arith, t, any_of_lookup p k v m)
  ]

  pub lookup_of_any :
      (p : String × V → Bool) (m : Dict V)
      → Distinct m
      → any p m ≡ true
      → (k : String) × (v : V) × (lookup k m ≡ some v) × (p (k, v) ≡ true)
  unfolding lookup
  lookup_of_any p [] d h = absurd (ground arith)
  lookup_of_any p ((j, w) ∷ m) d h = elim (Bool-cases (p (j, w))) [
    | inl t ↦ (j, w, ground (arith, eq_refl j), t)
    | inr t ↦
        let (k, v, e, q) = lookup_of_any p m d.1 (ground (arith, t)) in
        (k, v, ground (arith, eq_iff j k, d.0, e), q)
  ]

  has-insert :
      (u k : String) (v : V) (m : Dict V)
      → has u m ≡ false
      → str_eq k u ≡ false
      → has u (insert k v m) ≡ false
  has-insert u k v m h t = ground (arith, lookup-insert k u v m)

  pub Distinct-insert : (k : String) (v : V) (m : Dict V) → Distinct m → Distinct (insert k v m)
  unfolding insert lookup
  Distinct-insert k v [] d = (ground arith, tt)
  Distinct-insert k v ((j, w) ∷ m) d = elim (str_eq-cases j k) [
    | inl (t, q) ↦ rw (t, ← q) d
    | inr (t, q) ↦ rw t (
      has-insert j k v m d.0 (ground (arith, t, eq_iff j k, eq_iff k j)),
      Distinct-insert k v m d.1,
    )
  ]
