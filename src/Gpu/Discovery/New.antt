-- ===== src/Gpu/Discovery/New.antt =====
-- A GPU of pkg/gpu/discovery before the files of its driver are read.
use intel_resource_drivers_f.Base.{
  ◌≡◌, refl, sym, ◌∙◌, subst, ◌⊎◌, inl, inr, Bool, true, false, not, ◌||◌, String, [], some, lookup,
  arith, any, any-All, All-lookup, Option-cases, Bool-cases, str_eq, eq_iff,
}
use intel_resource_drivers_f.Helpers.Uids.{device_uid_from_pci_info}
use intel_resource_drivers_f.Gpu.Types.{DeviceInfo, i915, xe, is_drm_bound}
use intel_resource_drivers_f.Gpu.Models.{Details, model_details, set_model_info}
use intel_resource_drivers_f.Gpu.Discovery.{original_driver, new_device}

-- Before the names of its files are known.
abbrev pub IsNew : DeviceInfo → Type 0
IsNew g =
    (g.uid ≡ device_uid_from_pci_info g.pci_address g.model)
    × ((g.driver ≡ i915) ⊎ (g.driver ≡ xe))
    × (is_drm_bound g ≡ true → g.driver ≡ g.current_driver)
    × (g.health_status ≡ [])
    × (g.max_vfs ≡ 0)
    × (g.device_type ≡ "gpu")

abbrev other_driver : String × Details → Bool
other_driver (_, d) = not (str_eq d.driver i915 || str_eq d.driver xe)

no_other_driver : any other_driver model_details ≡ false
no_other_driver = refl

model_driver :
    (id : String) (d : Details)
    → lookup id model_details ≡ some d
    → (d.driver ≡ i915) ⊎ (d.driver ≡ xe)
model_driver id d e =
    let known : other_driver (id, d) ≡ false =
      All-lookup (λ x. other_driver x ≡ false) id model_details
        (any-All other_driver model_details no_other_driver) e in
    elim (Bool-cases (str_eq d.driver i915)) [
      | inl t ↦ inl ((eq_iff d.driver i915).0 t)
      | inr t ↦ inr ((eq_iff d.driver xe).0 (ground (arith, known, t)))
    ]

original_driver_lem :
    (current id driver : String)
    → original_driver current id ≡ some driver
    → ((driver ≡ i915) ⊎ (driver ≡ xe))
      × ((str_eq current i915 || str_eq current xe) ≡ true → driver ≡ current)
unfolding original_driver
original_driver_lem current id driver h = elim (Bool-cases (str_eq current i915)) [
  | inl t ↦
      let same : driver ≡ current = ground (arith, h, t) in
      (inl (same ∙ (eq_iff current i915).0 t), (λ _. same))
  | inr t ↦ elim (Bool-cases (str_eq current xe)) [
    | inl u ↦
        let same : driver ≡ current = ground (arith, h, t, u) in
        (inr (same ∙ (eq_iff current xe).0 u), (λ _. same))
    | inr u ↦ elim (Option-cases (lookup id model_details)) [
      | inl e ↦ absurd (ground (arith, h, t, u, e))
      | inr (d, e) ↦
          let same : d.driver ≡ driver = ground (arith, h, t, u, e) in
          (
            subst (λ (x : String). (x ≡ i915) ⊎ (x ≡ xe)) same (model_driver id d e),
            (λ q. absurd (ground (arith, q, t, u))),
          )
    ]
  ]
]

-- The model's table gives two names.
set_model_info_lem :
    (g : DeviceInfo)
    → (model : String) × (family : String) × (set_model_info g
        ≡ record g { model_name = model; family_name = family })
unfolding set_model_info
set_model_info_lem g = elim (Option-cases (lookup g.model model_details)) [
  | inl e ↦ ("Unknown", "Unknown", rw (e, set_model_info) refl)
  | inr (d, e) ↦ (d.model, d.family, rw (e, set_model_info) refl)
]

pub new_device-IsNew :
    (pci_address id current driver : String)
    → original_driver current id ≡ some driver
    → IsNew (new_device pci_address id current driver)
unfolding new_device is_drm_bound
new_device-IsNew pci_address id current driver h =
    let (known, bound) = original_driver_lem current id driver h in
    let (model, family, e) = set_model_info_lem _ in
    subst IsNew (sym e) (refl, known, bound, refl, refl, refl)
