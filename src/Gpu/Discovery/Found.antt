-- ===== src/Gpu/Discovery/Found.antt =====
-- What holds of every GPU that pkg/gpu/discovery finds.
use intel_resource_drivers_f.Base.{
  ◌^◌, ◌<◌, ◌≡◌, ◌≢◌, refl, sym, ap, ◌∙◌, subst, ◌⊎◌, inl, inr, true, not, ◌||◌, String, List, [],
  ◌∷◌, ◌++◌, none, some, insert, arith, All, All-insert, Option-cases, Bool-cases, str_eq, eq_iff,
  if◌then◌else◌, pci_regexp,
}
use intel_resource_drivers_f.Helpers.Uids.{device_uid_from_pci_info}
use intel_resource_drivers_f.Gpu.Types.{
  DeviceInfo, DevicesInfo, i915, xe, is_drm_bound, is_vfio_bound,
}
use intel_resource_drivers_f.Gpu.Models.{is_gpu_class}
use intel_resource_drivers_f.Gpu.Sysfs.{
  Os, drm_from, get_vfio_device, get_iommu_group, deduce_card_and_render_d_names, device_file,
}
use intel_resource_drivers_f.Gpu.Probe.{Probe}
use intel_resource_drivers_f.Gpu.Mei.{discover_mei_device_for_gpu}
use intel_resource_drivers_f.Gpu.Sriov.{detect_sriov}
use intel_resource_drivers_f.Gpu.Sriov.Outcome.{detect_sriov_lem}
use intel_resource_drivers_f.Gpu.Discovery.New.{IsNew, new_device-IsNew}
use intel_resource_drivers_f.Gpu.Discovery.{
  determine_device_name, original_driver, get_pci_device_driver, read_pci_info, new_device,
  with_driver_files, with_pci_root, discover_pci_device, process_from, process_sysfs_pci_devices,
  get_local_memory_amount_mib, populate_devices_info_memory, discover_devices,
}

-- The default driver is a DRM driver. A device that is bound to one is bound to that one, and has a card.
abbrev pub IsGpu : DeviceInfo → Type 0
IsGpu g =
    (g.uid ≡ device_uid_from_pci_info g.pci_address g.model)
    × ((g.driver ≡ i915) ⊎ (g.driver ≡ xe))
    × (is_drm_bound g ≡ true → (g.driver ≡ g.current_driver) × (g.card_name ≢ ""))
    × (g.health_status ≡ [])

-- A VF has no VFs of its own.
abbrev pub IsVfOrPf : DeviceInfo → Type 0
IsVfOrPf g = (g.device_type ≡ "vf" → g.max_vfs ≡ 0) × (g.max_vfs < 2 ^ 64)

-- A device, filed under its name.
abbrev pub IsListed : String → String × DeviceInfo → Type 0
IsListed naming_style (name, g) =
    (name ≡ determine_device_name g naming_style) × IsGpu g × IsVfOrPf g

module _ {W : Type 0} (os : Os W) (probe : Probe W) where
  named_card :
      (dir : List String) (card render_d : String) (w : W)
      → deduce_card_and_render_d_names os dir w ≡ some (card, render_d)
      → card ≢ ""
  unfolding deduce_card_and_render_d_names
  named_card dir card render_d w h = elim (Option-cases (os.read_dir (dir ++ ("drm" ∷ [])) w)) [
    | inl e ↦ absurd (ground (arith, h, e))
    | inr (names, e) ↦ go (drm_from os "" "" names) (ground (arith, h, e))
  ]
    where
      go :
          (found : String × String)
          → (if str_eq found.0 "" then none else some found) ≡ some (card, render_d)
          → card ≢ ""
      go (c, r) k q = absurd (ground (arith, k, q, eq_iff c ""))

  with_driver_files-IsGpu :
      (g h : DeviceInfo) (w : W)
      → IsNew g
      → with_driver_files os probe g w ≡ some h
      → IsGpu h × (h.max_vfs ≡ 0) × (h.device_type ≡ "gpu")
  unfolding with_driver_files is_drm_bound
  with_driver_files-IsGpu g h w new e = elim (Bool-cases (is_drm_bound g)) [
    | inl t ↦
        elim (Option-cases
          (deduce_card_and_render_d_names os (device_file os g.pci_address []) w)) [
            | inl f ↦ absurd (ground (arith, e, t, f))
            | inr ((card, render_d), f) ↦
                let named = record g {
                  card_name = card;
                  render_d_name = render_d;
                  mei_name = discover_mei_device_for_gpu os probe g.pci_address w;
                } in
                let same : named ≡ h = ground (arith, e, t, f) in
                subst (λ (x : DeviceInfo). IsGpu x × (x.max_vfs ≡ 0) × (x.device_type ≡ "gpu")) same
                  (
                    (
                      new.0,
                      new.1,
                      (λ b. (
                        new.2 b,
                        named_card (device_file os g.pci_address []) card render_d w f,
                      )),
                      new.3,
                    ),
                    new.4,
                    new.5,
                  )
          ]
    | inr t ↦ elim (Bool-cases (is_vfio_bound g)) [
      | inr u ↦
          let same : g ≡ h = ground (arith, e, t, u) in
          subst (λ (x : DeviceInfo). IsGpu x × (x.max_vfs ≡ 0) × (x.device_type ≡ "gpu")) same
            ((new.0, new.1, (λ b. absurd (ground (arith, b, t))), new.3), new.4, new.5)
      | inl u ↦ elim (Option-cases (get_vfio_device os g.pci_address w)) [
        | inl f ↦ absurd (ground (arith, e, t, u, f))
        | inr (vfio, f) ↦ elim (Option-cases (get_iommu_group os g.pci_address w)) [
          | inl k ↦ absurd (ground (arith, e, t, u, f, k))
          | inr (group, k) ↦
              let same : record g { vfio_device = vfio; iommu_group = group } ≡ h =
                ground (arith, e, t, u, f, k) in
              subst (λ (x : DeviceInfo). IsGpu x × (x.max_vfs ≡ 0) × (x.device_type ≡ "gpu")) same
                ((new.0, new.1, (λ b. absurd (ground (arith, b, t))), new.3), new.4, new.5)
        ]
      ]
    ]
  ]

  with_pci_root_lem :
      (g : DeviceInfo) (w : W)
      → (root : String) × (with_pci_root os probe g w ≡ record g { pci_root = root })
  unfolding with_pci_root
  with_pci_root_lem g w = elim (Option-cases (probe.pcie_root g.pci_address w)) [
    | inl e ↦ (g.pci_root, rw (e, with_pci_root) refl)
    | inr (root, e) ↦ (root, rw (e, with_pci_root) refl)
  ]

  detect_sriov-IsGpu :
      (g : DeviceInfo) (id : String) (w : W)
      → IsGpu g
      → g.max_vfs ≡ 0
      → g.device_type ≡ "gpu"
      → IsGpu (detect_sriov os probe g id w) × IsVfOrPf (detect_sriov os probe g id w)
  unfolding is_drm_bound
  detect_sriov-IsGpu g id w gpu zero kind = elim (detect_sriov_lem os probe g id w) [
    | inl e ↦
        subst (λ (x : DeviceInfo). IsGpu x × IsVfOrPf x) (sym e)
          (gpu, ((λ q. zero), omega (arith, zero)))
    | inr (inl (idx, parent, e)) ↦
        subst (λ (x : DeviceInfo). IsGpu x × IsVfOrPf x) (sym e)
          (gpu, ((λ q. zero), omega (arith, zero)))
    | inr (inr (max, fits, e)) ↦
        subst (λ (x : DeviceInfo). IsGpu x × IsVfOrPf x) (sym e)
          (gpu, ((λ q. absurd (ground (arith, kind, q, eq_iff "gpu" "vf"))), fits))
  ]

  discover_pci_device-IsGpu :
      (pci_address : String) (g : DeviceInfo) (w : W)
      → discover_pci_device os probe pci_address w ≡ some g
      → IsGpu g × IsVfOrPf g
  unfolding discover_pci_device is_drm_bound
  discover_pci_device-IsGpu pci_address g w h =
      let current = get_pci_device_driver os probe pci_address w in
      let (vendor, id, class) = read_pci_info os probe pci_address w in
      elim (Bool-cases (not (str_eq vendor "0x8086") || not (is_gpu_class class))) [
        | inl t ↦ absurd (ground (arith, h, t))
        | inr t ↦ elim (Option-cases (original_driver current id)) [
          | inl e ↦ absurd (ground (arith, h, t, e))
          | inr (driver, e) ↦
              elim (Option-cases
                (with_driver_files os probe (new_device pci_address id current driver) w)) [
                  | inl f ↦ absurd (ground (arith, h, t, e, f))
                  | inr (info, f) ↦
                      let (gpu, zero, kind) =
                        with_driver_files-IsGpu (new_device pci_address id current driver) info w
                          (new_device-IsNew pci_address id current driver e) f in
                      let (root, q) = with_pci_root_lem info w in
                      let found : detect_sriov os probe (with_pci_root os probe info w) id w ≡ g =
                        ground (arith, h, t, e, f) in
                      let rooted = record info { pci_root = root } in
                      let same : detect_sriov os probe rooted id w ≡ g =
                        sym (ap (λ (x : DeviceInfo). detect_sriov os probe x id w) q) ∙ found in
                      subst (λ (x : DeviceInfo). IsGpu x × IsVfOrPf x) same
                        (detect_sriov-IsGpu rooted id w gpu zero kind)
                ]
        ]
      ]

  process_from-IsListed :
      (style : String) (names : List String) (devices : DevicesInfo) (w : W)
      → All (IsListed style) devices
      → All (IsListed style) (process_from os probe style devices names w)
  unfolding process_from
  process_from-IsListed style [] devices w h = h
  process_from-IsListed style (name ∷ names) devices w h = elim (Bool-cases (pci_regexp name)) [
    | inr t ↦ rw (t, process_from) (process_from-IsListed style names devices w h)
    | inl t ↦ elim (Option-cases (discover_pci_device os probe name w)) [
      | inl e ↦ rw (t, e, process_from) (process_from-IsListed style names devices w h)
      | inr (g, e) ↦
          let key = determine_device_name g style in
          let (gpu, kind) = discover_pci_device-IsGpu name g w e in
          rw (t, e, process_from)
            (process_from-IsListed style names (insert key g devices) w
              (All-insert (IsListed style) key g devices (refl, gpu, kind) h))
    ]
  ]

  memory-IsListed :
      (style : String) (devices : DevicesInfo) (w : W)
      → All (IsListed style) devices
      → All (IsListed style) (populate_devices_info_memory os probe devices w)
  unfolding populate_devices_info_memory determine_device_name is_drm_bound
  memory-IsListed style [] w h = tt
  memory-IsListed style ((name, g) ∷ devices) w h =
      elim (Option-cases (get_local_memory_amount_mib os probe g.card_name g.driver w)) [
        | inl e ↦ rw (e, populate_devices_info_memory) h
        | inr (mib, e) ↦
            rw (e, populate_devices_info_memory) (h.0, memory-IsListed style devices w h.1)
      ]

  -- Whatever sysfs holds, each GPU that is discovered is filed under its name in the naming style,
  -- has the UID of its address and model, i915 or xe as its default driver, the default driver and a
  -- card if it is bound to a DRM driver, no health status, a number of VFs below 2^64, and no VFs if
  -- it is a VF.
  pub discover_devices-IsListed :
      (style : String) (w : W) → All (IsListed style) (discover_devices os probe style w)
  unfolding discover_devices process_sysfs_pci_devices
  discover_devices-IsListed style w =
      memory-IsListed style (process_sysfs_pci_devices os probe style w) w
        (elim (Option-cases (os.read_dir (os.sysfs_root ++ ("bus" ∷ "pci" ∷ "devices" ∷ [])) w)) [
          | inl e ↦ rw (e, process_sysfs_pci_devices) tt
          | inr (names, e) ↦
              rw (e, process_sysfs_pci_devices) (process_from-IsListed style names [] w tt)
        ])
