-- ===== src/Base/Maps.antt =====
-- A Go map with text keys, as an association list: the list's order stands for the order in which
-- a `range` loop happens to visit the entries.
use Prim.Native.String.{String}
use mathlib.Core.Path.{◌≡◌, refl, subst}
use mathlib.Core.Bool.{Bool, true, false}
use mathlib.Core.List.{List, [], ◌∷◌}
use mathlib.Core.Logic.{◌≢◌, inl, inr}
use mathlib.Core.Option.{Option, none, some}
use native.Mathlib.Omega.{arith}
use text.Mathlib.Text.{◌==◌ as str_eq}
use text.Mathlib.TextEquality.{eq_iff}
use text.Mathlib.TextPositions.{eq_refl}
use intel_resource_drivers_f.Base.Tests.{if◌then◌else◌, All, Bool-cases, str_eq-cases}

abbrev pub Dict {ℓ} : Type ℓ → Type ℓ
Dict V = List (String × V)

module _ {ℓ} {V : Type ℓ} where
  -- `m[k] = v`
  unfoldable pub insert : String → V → Dict V → Dict V
  insert key new [] = (key, new) ∷ []
  insert key new ((name, old) ∷ entries) =
      let rest = insert key new entries in
      if str_eq name key then (key, new) ∷ entries else (name, old) ∷ rest

  -- `delete(m, k)`
  unfoldable pub delete : String → Dict V → Dict V
  delete key [] = []
  delete key ((name, old) ∷ entries) =
      let rest = delete key entries in if str_eq name key then rest else (name, old) ∷ rest

  -- `v, found := m[k]`
  unfoldable pub lookup : String → Dict V → Option V
  lookup key [] = none
  lookup key ((name, value) ∷ entries) =
      let rest = lookup key entries in if str_eq name key then some value else rest

  -- `_, found := m[k]`
  abbrev pub has : String → Dict V → Bool
  has key entries = elim (lookup key entries) [ none ↦ false | some _ ↦ true ]

  -- Two lists that stand for the same map: the same look-ups, in whatever order.
  abbrev pub SameEntries : Dict V → Dict V → Type ℓ
  SameEntries m n = (key : String) → lookup key m ≡ lookup key n

  pub lookup-delete :
      (gone key : String) (entries : Dict V)
      → lookup key (delete gone entries) ≡ (if str_eq gone key then none else lookup key entries)
  unfolding lookup delete
  lookup-delete gone key [] = ground arith
  lookup-delete gone key ((name, old) ∷ entries) =
      ground
        (arith, lookup-delete gone key entries, eq_iff name gone, eq_iff name key, eq_iff gone key)

  pub lookup-insert :
      (put key : String) (new : V) (entries : Dict V)
      → lookup key (insert put new entries)
        ≡ (if str_eq put key then some new else lookup key entries)
  unfolding lookup insert
  lookup-insert put key new [] = refl
  lookup-insert put key new ((name, old) ∷ entries) =
      ground
        (arith, lookup-insert put key new entries, eq_iff name put, eq_iff name key, eq_iff put key)

  pub lookup-insert_self : (k : String) (v : V) (m : Dict V) → lookup k (insert k v m) ≡ some v
  lookup-insert_self k v m = simp (lookup-insert, eq_refl)

  pub lookup-delete_self : (k : String) (m : Dict V) → lookup k (delete k m) ≡ none
  lookup-delete_self k m = simp (lookup-delete, eq_refl)

  pub lookup-insert_ne :
      (k j : String) (v : V) (m : Dict V) → k ≢ j → lookup j (insert k v m) ≡ lookup j m
  lookup-insert_ne k j v m h = ground (arith, lookup-insert k j v m, eq_iff k j)

  pub lookup-delete_ne : (k j : String) (m : Dict V) → k ≢ j → lookup j (delete k m) ≡ lookup j m
  lookup-delete_ne k j m h = ground (arith, lookup-delete k j m, eq_iff k j)

  -- What holds of every entry holds of the one that is found.
  pub All-lookup {κ} :
      (P : String × V → Type κ) (k : String) {v : V} (m : Dict V)
      → All P m
      → lookup k m ≡ some v
      → P (k, v)
  unfolding lookup
  All-lookup P k [] h e = absurd (ground arith)
  All-lookup P k {v} ((j, w) ∷ m) h e = elim (str_eq-cases j k) [
    | inl (t, p) ↦ subst (λ (x : String × V). P x) (ground (arith, t, p)) h.0
    | inr (t, p) ↦ All-lookup P k m h.1 (ground (arith, t))
  ]

  pub All-insert {κ} :
      (P : String × V → Type κ) (k : String) (v : V) (m : Dict V)
      → P (k, v)
      → All P m
      → All P (insert k v m)
  unfolding insert
  All-insert P k v [] p h = (p, tt)
  All-insert P k v ((j, w) ∷ m) p h = elim (Bool-cases (str_eq j k)) [
    | inl t ↦ rw t (p, h.1)
    | inr t ↦ rw t (h.0, All-insert P k v m p h.1)
  ]

  pub All-delete {κ} :
      (P : String × V → Type κ) (k : String) (m : Dict V) → All P m → All P (delete k m)
  unfolding delete
  All-delete P k [] h = tt
  All-delete P k ((j, w) ∷ m) h = elim (Bool-cases (str_eq j k)) [
    | inl t ↦ rw t (All-delete P k m h.1)
    | inr t ↦ rw t (h.0, All-delete P k m h.1)
  ]

pub ruleset dict_laws = (lookup-insert, lookup-delete, lookup-insert_self, lookup-delete_self)
