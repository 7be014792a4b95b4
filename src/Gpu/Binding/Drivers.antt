-- ===== src/Gpu/Binding/Drivers.antt =====
-- The driver that a GPU has once a claim's driver change is over: `prepareVFIODevice` and
-- `prepareDRMDevice` of cmd/kubelet-gpu-plugin/node_state.go.
use intel_resource_drivers_f.Base.{
  ◌≡◌, refl, Bool, true, false, String, none, some, arith, any, str_eq, eq_iff, Option-cases,
  Bool-cases, inl, inr,
}
use intel_resource_drivers_f.Gpu.Types.{DeviceInfo}
use intel_resource_drivers_f.Gpu.Sysfs.{Os, ensure_kernel_module_loaded}
use intel_resource_drivers_f.Gpu.Cdi.{Registry}
use intel_resource_drivers_f.Gpu.Binding.{
  supported_drivers, deduce_target_vfio_driver, change_kernel_driver, found_vfio, found_drm,
  save_cdi, prepare_vfio_device, prepare_drm_device,
}

module _ {W : Type 0} (os : Os W) (cdi : Registry W) where
  change_disabled :
      (address driver : String) (w : W)
      → ((change_kernel_driver os cdi false address driver w).1 ≡ false)
        × ((change_kernel_driver os cdi false address driver w).2 ≡ w)
  unfolding change_kernel_driver
  change_disabled address driver w =
      elim (Bool-cases (any (λ d. str_eq d driver) supported_drivers)) [
        | inl t ↦ rw (t, change_kernel_driver) (refl, refl)
        | inr t ↦ rw (t, change_kernel_driver) (refl, refl)
      ]

  -- With `manageBinding` off, neither `prepareVFIODevice` nor `prepareDRMDevice` changes the device
  -- or the system, and neither asks for a publication.
  pub binding_disabled_lem :
      (g : DeviceInfo) (w : W)
      → ((prepare_vfio_device os cdi false g w).1 ≡ false)
        × ((prepare_vfio_device os cdi false g w).2 ≡ g)
        × ((prepare_vfio_device os cdi false g w).3 ≡ w)
        × ((prepare_drm_device os cdi false g w).1 ≡ false)
        × ((prepare_drm_device os cdi false g w).2 ≡ g)
        × ((prepare_drm_device os cdi false g w).3 ≡ w)
  unfolding prepare_vfio_device prepare_drm_device change_kernel_driver
  binding_disabled_lem g w = ground (arith)

  module _ (manage_binding : Bool) where
    found_vfio-driver :
        (g : DeviceInfo) (w : W)
        → (found_vfio os cdi manage_binding g w).2.current_driver ≡ g.current_driver
    unfolding found_vfio save_cdi
    found_vfio-driver g w = ground (arith)

    found_drm-driver :
        (g : DeviceInfo) (w : W)
        → (found_drm os cdi manage_binding g w).2.current_driver ≡ g.current_driver
    unfolding found_drm save_cdi
    found_drm-driver g w = ground (arith)

    -- If `prepareVFIODevice` returns no error, `deduceTargetVFIODriver` names a driver, and it is
    -- the current driver of the device.
    pub prepare_vfio_device-driver :
        (g : DeviceInfo) (w : W)
        → (prepare_vfio_device os cdi manage_binding g w).0 ≡ none
        → deduce_target_vfio_driver os cdi manage_binding g.driver w
          ≡ some (prepare_vfio_device os cdi manage_binding g w).2.current_driver
    unfolding prepare_vfio_device
    prepare_vfio_device-driver g w h =
        elim (Option-cases (deduce_target_vfio_driver os cdi manage_binding g.driver w)) [
          | inl e ↦ absurd (ground (arith, h, e))
          | inr (t, e) ↦ ground (
            arith,
            h,
            e,
            eq_iff g.current_driver t,
            found_vfio-driver (record g { current_driver = t })
                (change_kernel_driver os cdi manage_binding g.pci_address t w).2,
          )
        ]

    -- If `prepareDRMDevice` returns no error, the module of the device's own driver is loaded, and
    -- it is the current driver of the device.
    pub prepare_drm_device-driver :
        (g : DeviceInfo) (w : W)
        → (prepare_drm_device os cdi manage_binding g w).0 ≡ none
        → (ensure_kernel_module_loaded os g.driver w ≡ true)
          × ((prepare_drm_device os cdi manage_binding g w).2.current_driver ≡ g.driver)
    unfolding prepare_drm_device
    prepare_drm_device-driver g w h = ground (
      arith,
      h,
      eq_iff g.current_driver g.driver,
      found_drm-driver (record g { current_driver = g.driver })
          (change_kernel_driver os cdi manage_binding g.pci_address g.driver w).2,
    )
