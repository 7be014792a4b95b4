-- ===== src/Gpu/Cdi/Removal.antt =====
-- What `RemoveDevices` of pkg/gpu/cdihelpers/cdihelpers.go leaves of the specs.
use intel_resource_drivers_f.Base.{
  ◌≡◌, refl, sym, ap, true, not, String, List, [], ◌∷◌, map, arith, keep, any, str_eq, Bool-cases,
  inl, inr,
}
use intel_resource_drivers_f.Gpu.Sysfs.{Os}
use intel_resource_drivers_f.Gpu.Cdi.{CdiDevice, Spec, Registry, without, remove_one, remove_all}

-- The devices of a spec that have none of the names.
abbrev pub without_all : List String → Spec → Spec
without_all names spec = record spec {
  devices = keep (λ d. not (any (λ n. str_eq d.name n) names)) spec.devices;
}

keep-keep :
    (name : String) (names : List String) (ds : List CdiDevice)
    → keep (λ d. not (any (λ n. str_eq d.name n) names)) (keep (λ d. not (str_eq d.name name)) ds)
      ≡ keep (λ d. not (any (λ n. str_eq d.name n) (name ∷ names))) ds
keep-keep name names [] = refl
keep-keep name names (d ∷ ds) = ground (arith, keep-keep name names ds)

keep_nothing : (ds : List CdiDevice) → keep (λ d. true) ds ≡ ds
keep_nothing [] = refl
keep_nothing (d ∷ ds) = ap (λ x. d ∷ x) (keep_nothing ds)

map-without_all :
    (name : String) (names : List String) (specs : List Spec)
    → map (without_all names) (map (without name) specs) ≡ map (without_all (name ∷ names)) specs
unfolding without
map-without_all name names [] = refl
map-without_all name names (spec ∷ specs) = λ i.
    record spec { devices = keep-keep name names spec.devices i }
    ∷ map-without_all name names specs i

map-without_none : (specs : List Spec) → map (without_all []) specs ≡ specs
map-without_none [] = refl
map-without_none (spec ∷ specs) =
    λ i. record spec { devices = keep_nothing spec.devices i } ∷ map-without_none specs i

module _ {W : Type 0} (os : Os W) (cdi : Registry W) where
  remove_one_lem :
      (name : String) (specs : List Spec) (w : W)
      → (remove_one os cdi name specs w).0 ≡ true
      → (remove_one os cdi name specs w).1 ≡ map (without name) specs
  unfolding remove_one
  remove_one_lem name [] w h = refl
  remove_one_lem name (spec ∷ specs) w h =
      elim (Bool-cases (cdi.write_spec (without name spec) spec.spec_name w).0) [
        | inr t ↦ absurd (ground (arith, h, t))
        | inl t ↦ ground (
          arith,
          h,
          t,
          remove_one_lem name specs (cdi.write_spec (without name spec) spec.spec_name w).1,
        )
      ]

  -- When every write succeeds, the loops of `RemoveDevices` leave in each spec exactly the devices
  -- whose name is none of the names to remove.
  pub remove_all_lem :
      (names : List String) (specs : List Spec) (w : W)
      → (remove_all os cdi names specs w).0 ≡ true
      → (remove_all os cdi names specs w).1 ≡ map (without_all names) specs
  unfolding remove_all
  remove_all_lem [] specs w h = sym (map-without_none specs)
  remove_all_lem (name ∷ names) specs w h = elim (Bool-cases (remove_one os cdi name specs w).0) [
    | inr t ↦ absurd (ground (arith, h, t))
    | inl t ↦ ground (
      arith,
      h,
      t,
      remove_one_lem name specs w t,
      map-without_all name names specs,
      remove_all_lem names (map (without name) specs) (remove_one os cdi name specs w).2,
    )
  ]
