-- ===== src/Gpu/Binding.antt =====
-- Binding a GPU to the kernel driver that a claim needs: `deduceTargetVFIODriver`, `changeKernelDriver`,
-- `prepareVFIODevice` and `prepareDRMDevice` of cmd/kubelet-gpu-plugin/node_state.go.
pub mod Drivers
use intel_resource_drivers_f.Base.{
  Bool, true, false, ◌&&◌, ◌||◌, not, String, List, [], ◌∷◌, Option, none, some, any, if◌then◌else◌,
  str_eq,
}
use intel_resource_drivers_f.Gpu.Types.{DeviceInfo, i915, xe, vfio_pci, xe_vfio_pci}
use intel_resource_drivers_f.Gpu.Sysfs.{
  Os, device_file, ensure_kernel_module_loaded, unbind_device, bind_device, get_vfio_device,
  get_iommu_group, deduce_card_and_render_d_names,
}
use intel_resource_drivers_f.Gpu.Cdi.{Registry, update_gpu_devices}

pub data Error : Type 0 where
  no_allocation already_allocated not_allocatable : Error
  no_kernel_module unsupported_driver binding_disabled unbind_failed bind_failed : Error
  no_vfio_device no_iommu_group no_drm_device cdi_failed : Error
  checkpoint_failed : Error

-- An error if there is one, whether the driver was touched, the device and the system after it.
abbrev pub Outcome : Type 0 → Type 0
Outcome W = Option Error × Bool × DeviceInfo × W

abbrev pub supported_drivers : List String
supported_drivers = i915 ∷ xe ∷ vfio_pci ∷ xe_vfio_pci ∷ []

module _ {W : Type 0} (os : Os W) (cdi : Registry W) (manage_binding : Bool) where
  -- Devices of the xe driver prefer xe-vfio-pci.
  unfoldable pub deduce_target_vfio_driver : String → W → Option String
  deduce_target_vfio_driver default_driver w =
      if str_eq default_driver xe && ensure_kernel_module_loaded os xe_vfio_pci w
      then some xe_vfio_pci
      else if ensure_kernel_module_loaded os vfio_pci w
      then some vfio_pci
      else none

  unfoldable pub change_kernel_driver : String → String → W → Option Error × Bool × W
  change_kernel_driver pci_address driver w =
      let (unbound, w1) = unbind_device os pci_address w in
      let (bound, w2) = bind_device os pci_address driver w1 in
      if not (any (λ d. str_eq d driver) supported_drivers)
      then (some Error.unsupported_driver, false, w)
      else if not manage_binding
      then (some Error.binding_disabled, false, w)
      else (elim unbound [
        | some _ ↦ (some Error.unbind_failed, false, w1)
        | none ↦ elim bound [
          | some _ ↦ (some Error.bind_failed, true, w2)
          | none ↦ (none, true, w2)
        ]
      ])

  save_cdi : DeviceInfo → W → Outcome W
  save_cdi g w =
      let (saved, w') = update_gpu_devices os cdi (g ∷ []) w in
      (if saved then none else some Error.cdi_failed, true, g, w')

  -- `prepareVFIODevice` after the driver has changed.
  found_vfio : DeviceInfo → W → Outcome W
  unfolding save_cdi
  found_vfio g w = elim (get_vfio_device os g.pci_address w) [
    | none ↦ (some Error.no_vfio_device, true, g, w)
    | some vfio ↦
        let g2 = record g { vfio_device = vfio } in
        elim (get_iommu_group os g.pci_address w) [
          | none ↦ (some Error.no_iommu_group, true, g2, w)
          | some group ↦ save_cdi (record g2 { iommu_group = group }) w
        ]
  ]

  unfoldable pub prepare_vfio_device : DeviceInfo → W → Outcome W
  unfolding found_vfio
  prepare_vfio_device g w = elim (deduce_target_vfio_driver g.driver w) [
    | none ↦ (some Error.no_kernel_module, false, g, w)
    | some target ↦
        let (changed, touched, w') = change_kernel_driver g.pci_address target w in
        let done = found_vfio (record g { current_driver = target }) w' in
        if str_eq g.current_driver target
        then (none, false, g, w)
        else (elim changed [ some e ↦ (some e, touched, g, w') | none ↦ done ])
  ]

  -- `prepareDRMDevice` after the driver has changed.
  found_drm : DeviceInfo → W → Outcome W
  unfolding save_cdi
  found_drm g w = elim (deduce_card_and_render_d_names os (device_file os g.pci_address []) w) [
    | none ↦ (some Error.no_drm_device, true, g, w)
    | some (card, render_d) ↦ save_cdi (record g { card_name = card; render_d_name = render_d }) w
  ]

  unfoldable pub prepare_drm_device : DeviceInfo → W → Outcome W
  unfolding found_drm
  prepare_drm_device g w =
      let (changed, touched, w') = change_kernel_driver g.pci_address g.driver w in
      let done = found_drm (record g { current_driver = g.driver }) w' in
      if not (ensure_kernel_module_loaded os g.driver w)
      then (some Error.no_kernel_module, false, g, w)
      else if str_eq g.current_driver g.driver
      then (none, false, g, w)
      else (elim changed [ some e ↦ (some e, touched, g, w') | none ↦ done ])
