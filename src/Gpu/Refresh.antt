-- ===== src/Gpu/Refresh.antt =====
-- `RefreshDeviceOnDriverEvent` of cmd/kubelet-gpu-plugin/node_state.go: a udev event of a device's driver.
pub mod Taints
use intel_resource_drivers_f.Base.{
  Bool, true, false, ◌||◌, not, String, [], ◌∷◌, Option, none, some, lookup, insert, if◌then◌else◌,
  str_eq,
}
use intel_resource_drivers_f.Gpu.Types.{
  Health, DeviceInfo, DevicesInfo, device_absent, unexpected_driver,
}
use intel_resource_drivers_f.Gpu.Probe.{Probe}
use intel_resource_drivers_f.Gpu.Discovery.{discover_pci_device, determine_device_name}
use intel_resource_drivers_f.Gpu.Cdi.{update_gpu_devices}
use intel_resource_drivers_f.Gpu.Node.{NodeState, Env, is_device_used_exclusively_already}

-- `getAllocatableByPCIAddress`, with the name that the device is filed under.
unfoldable pub allocatable_by_pci_address : String → DevicesInfo → Option (String × DeviceInfo)
allocatable_by_pci_address pci_address [] = none
allocatable_by_pci_address pci_address ((name, g) ∷ rest) =
    let later = allocatable_by_pci_address pci_address rest in
    if str_eq g.pci_address pci_address then some (name, g) else later

unfoldable pub mark : String → Health → DeviceInfo → DeviceInfo
mark kind h g = record g { health_status = insert kind h g.health_status }

-- A device that was absent is back.
back_again : DeviceInfo → Bool × DeviceInfo
unfolding mark
back_again g = elim (lookup device_absent g.health_status) [
  | some Health.unhealthy ↦ (true, mark device_absent Health.healthy g)
  | _ ↦ (false, g)
]

-- The fields that a change of the driver changes.
unfoldable pub with_driver_of : DeviceInfo → DeviceInfo → DeviceInfo
with_driver_of cached found = record cached {
  current_driver = found.current_driver;
  card_name = found.card_name;
  render_d_name = found.render_d_name;
  memory_mib = found.memory_mib;
  mei_name = found.mei_name;
  vfio_device = found.vfio_device;
  iommu_group = found.iommu_group;
  vf_index = found.vf_index;
}

-- The default case: the device was known, and is found. `used` says that a claim holds it.
unfoldable pub refresh_known : Bool → String → DeviceInfo → DeviceInfo → Bool × DeviceInfo
unfolding back_again with_driver_of
refresh_known used expected_driver cached found =
    let (back, g) = back_again cached in
    let changed = with_driver_of g found in
    if not (str_eq found.current_driver expected_driver)
    then (back, g)
    else if str_eq g.current_driver found.current_driver
    then (back, g)
    else (true, if used then mark unexpected_driver Health.unhealthy changed else changed)

module _ {W : Type 0} (env : Env W) (probe : Probe W) where
  -- Whether to publish, whether the CDI registry took the device, and the state.
  unfoldable pub refresh_device_on_driver_event :
      String → String → NodeState W → Bool × Bool × NodeState W
  unfolding refresh_known mark
  refresh_device_on_driver_event pci_address expected_driver s =
      elim (allocatable_by_pci_address pci_address s.allocatable) [
        | none ↦ elim (discover_pci_device env.os probe pci_address s.world) [
          | none ↦ (false, true, s)
          | some found ↦
              let name = determine_device_name found "machine" in
              let (updated, w') = update_gpu_devices env.os env.cdi (found ∷ []) s.world in
              (
                true,
                updated,
                record s { allocatable = insert name found s.allocatable; world = w' },
              )
        ]
        | some (name, cached) ↦ elim (discover_pci_device env.os probe pci_address s.world) [
          | none ↦ (
            true,
            true,
            record s {
              allocatable = insert name (mark device_absent Health.unhealthy cached) s.allocatable;
            },
          )
          | some found ↦
              let used = is_device_used_exclusively_already cached.uid s.node_name "" s.prepared in
              let (publish, g) = refresh_known used expected_driver cached found in
              (publish, true, record s { allocatable = insert name g s.allocatable })
        ]
      ]
