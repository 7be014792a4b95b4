-- ===== src/Gpu/Tests/Bindings.antt =====
-- CDI specs and kernel drivers of one GPU.
use intel_resource_drivers_f.Base.{
  ◌≡◌, refl, true, false, [], ◌∷◌, map, none, some, insert, any, keep, numbered,
}
use intel_resource_drivers_f.Gpu.Types.{i915, vfio_pci, is_vfio_bound}
use intel_resource_drivers_f.Gpu.Sysfs.{
  base, ensure_kernel_module_loaded, unbind_device, bind_device, get_vfio_device, get_iommu_group,
  deduce_card_and_render_d_names,
}
use intel_resource_drivers_f.Gpu.Cdi.{
  remove_all, remove_devices, update_gpu_devices, get_gpu_specs, write_new_spec, add_gpu_device,
  add_devices_to_spec, cdi_device, without,
}
use intel_resource_drivers_f.Gpu.Cdi.Removal.{without_all, remove_all_lem}
use intel_resource_drivers_f.Gpu.Binding.{
  deduce_target_vfio_driver, change_kernel_driver, prepare_vfio_device, prepare_drm_device,
}
use intel_resource_drivers_f.Gpu.Binding.Drivers.{binding_disabled_lem, prepare_vfio_device-driver}
use intel_resource_drivers_f.Gpu.Tests.{cdi, gpu, os, spec}

removed : (remove_all os cdi ("gpu0" ∷ []) (spec ∷ []) []).0 ≡ true
unfolding remove_all
removed = refl

remove_all_lem_example :
    (remove_all os cdi ("gpu0" ∷ []) (spec ∷ []) []).1 ≡ map (without_all ("gpu0" ∷ [])) (spec ∷ [])
remove_all_lem_example = remove_all_lem os cdi ("gpu0" ∷ []) (spec ∷ []) [] removed

binding_disabled_lem_example :
    ((prepare_vfio_device os cdi false (gpu "gpu0" i915) []).1 ≡ false)
    × ((prepare_vfio_device os cdi false (gpu "gpu0" i915) []).2 ≡ gpu "gpu0" i915)
    × ((prepare_vfio_device os cdi false (gpu "gpu0" i915) []).3 ≡ [])
    × ((prepare_drm_device os cdi false (gpu "gpu0" i915) []).1 ≡ false)
    × ((prepare_drm_device os cdi false (gpu "gpu0" i915) []).2 ≡ gpu "gpu0" i915)
    × ((prepare_drm_device os cdi false (gpu "gpu0" i915) []).3 ≡ [])
binding_disabled_lem_example = binding_disabled_lem os cdi (gpu "gpu0" i915) []

vfio_prepared : (prepare_vfio_device os cdi true (gpu "gpu0" i915) []).0 ≡ none
unfolding prepare_vfio_device deduce_target_vfio_driver change_kernel_driver unbind_device
    bind_device ensure_kernel_module_loaded get_vfio_device get_iommu_group update_gpu_devices
    remove_devices remove_all get_gpu_specs write_new_spec add_gpu_device add_devices_to_spec
    cdi_device without base numbered any insert keep is_vfio_bound
vfio_prepared = refl

prepare_vfio_device-driver_example :
    deduce_target_vfio_driver os cdi true i915 []
    ≡ some (prepare_vfio_device os cdi true (gpu "gpu0" i915) []).2.current_driver
prepare_vfio_device-driver_example =
    prepare_vfio_device-driver os cdi true (gpu "gpu0" i915) [] vfio_prepared

drm_prepared : (prepare_drm_device os cdi true (gpu "gpu0" vfio_pci) []).0 ≡ none
unfolding prepare_drm_device change_kernel_driver unbind_device bind_device
    ensure_kernel_module_loaded deduce_card_and_render_d_names update_gpu_devices remove_devices
    remove_all get_gpu_specs write_new_spec add_gpu_device add_devices_to_spec cdi_device without
    base numbered any insert keep is_vfio_bound
drm_prepared = refl
