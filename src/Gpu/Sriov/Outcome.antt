-- ===== src/Gpu/Sriov/Outcome.antt =====
-- What pkg/gpu/discovery/sriov.go makes of a device.
use intel_resource_drivers_f.Base.{
  ℕ, ◌^◌, ◌<◌, ◌≡◌, refl, ◌⊎◌, inl, inr, String, [], ◌∷◌, Option-cases, Bool-cases, str_eq,
  trim_space, from, parse_uint, parse_uint_fits,
}
use intel_resource_drivers_f.Helpers.Uids.{device_uid_from_pci_info}
use intel_resource_drivers_f.Gpu.Types.{DeviceInfo}
use intel_resource_drivers_f.Gpu.Sysfs.{Os, device_file}
use intel_resource_drivers_f.Gpu.Probe.{Probe}
use intel_resource_drivers_f.Gpu.Sriov.{link_text, deduce_vf_idx, detect_vf, detect_sriov}

-- It is the device as a VF of some parent.
abbrev pub IsVfOf : DeviceInfo → String → DeviceInfo → Type 0
IsVfOf g id found =
    (idx : ℕ) × (parent : String) × (found ≡ record g {
      vf_index = idx;
      millicores = 1000;
      parent_uid = device_uid_from_pci_info parent id;
      device_type = "vf";
    })

-- It is the device with the number of VFs that it can have.
abbrev pub IsPfOf : DeviceInfo → DeviceInfo → Type 0
IsPfOf g found = (max : ℕ) × (max < 2 ^ 64) × (found ≡ record g { max_vfs = max })

module _ {W : Type 0} (os : Os W) (probe : Probe W) where
  detect_vf_lem :
      (g : DeviceInfo) (id : String) (w : W)
      → (detect_vf os probe g id w ≡ g) ⊎ IsVfOf g id (detect_vf os probe g id w)
  unfolding detect_vf
  detect_vf_lem g id w =
      elim (Option-cases
        (link_text (os.read_link (device_file os g.pci_address ("physfn" ∷ [])) w))) [
          | inl e ↦ inl (rw (e, detect_vf) refl)
          | inr (target, e) ↦
              elim (Option-cases (deduce_vf_idx os probe (from 3 target) g.pci_address w)) [
                | inl f ↦ inl (rw (e, f, detect_vf) refl)
                | inr (idx, f) ↦ inr (idx, from 3 target, rw (e, f, detect_vf) refl)
              ]
        ]

  pub detect_sriov_lem :
      (g : DeviceInfo) (id : String) (w : W)
      → (detect_sriov os probe g id w ≡ g)
        ⊎ (IsVfOf g id (detect_sriov os probe g id w) ⊎ IsPfOf g (detect_sriov os probe g id w))
  unfolding detect_sriov
  detect_sriov_lem g id w =
      elim (Option-cases
        (probe.read_file (device_file os g.pci_address ("sriov_totalvfs" ∷ [])) w)) [
          | inl e ↦
              rw (e, detect_sriov)
                (elim (detect_vf_lem g id w) [ inl q ↦ inl q | inr q ↦ inr (inl q) ])
          | inr (total, e) ↦ elim (Option-cases (parse_uint (trim_space total))) [
            | inl f ↦ inl (rw (e, f, detect_sriov) refl)
            | inr (max, f) ↦
                elim (Option-cases (
                  probe.read_file (device_file os g.pci_address ("sriov_drivers_autoprobe" ∷ []))
                    w)) [
                      | inl k ↦ inl (rw (e, f, k, detect_sriov) refl)
                      | inr (auto, k) ↦ elim (Bool-cases (str_eq (trim_space auto) "0")) [
                        | inl t ↦ inl (rw (e, f, k, t, detect_sriov) refl)
                        | inr t ↦ inr (
                            inr (
                              max,
                              parse_uint_fits (trim_space total) max f,
                              rw (e, f, k, t, detect_sriov) refl,
                            ))
                      ]
                    ]
          ]
        ]
