-- ===== src/Gpu/Xpumd.antt =====
-- The reading of xpumd's messages: `xpumDevicesToAllocatableDevicesInfo` and the part of
-- `ConsumeXPUMDDeviceDetails` that applies them, in cmd/kubelet-gpu-plugin/xpumd.go.
pub mod Severity
use intel_resource_drivers_f.Base.{
  ℕ, ◌*◌, ◌/◌, Bool, true, false, String, List, [], ◌∷◌, Dict, insert, if◌then◌else◌, leb,
}
use intel_resource_drivers_f.Helpers.Uids.{prefixed, device_uid_from_pci_info}
use intel_resource_drivers_f.Gpu.Types.{Health, DeviceInfo, DevicesInfo}
use intel_resource_drivers_f.Gpu.Health.{apply_device_updates}

-- The messages of xpumapi, as far as the driver reads them: one aspect of the health of a device, by
-- the number of its severity, and a device with the sizes of its memories in bytes.
pub record Reading : Type 0 where
  pub name : String
  pub severity : ℕ

pub record DeviceHealth : Type 0 where
  pub bdf : String
  pub device_id : String
  pub model : String
  pub memory : List ℕ
  pub health : List Reading

-- The loop over the aspects of one device.
unfoldable pub health_values : ℕ → List Reading → Dict Health → Dict Health
health_values threshold [] status = status
health_values threshold (r ∷ rs) status =
    health_values threshold rs
      (insert r.name (if leb threshold r.severity then Health.unhealthy else Health.healthy) status)

first_memory_mib : List ℕ → ℕ
first_memory_mib [] = 0
first_memory_mib (size ∷ _) = size / (1024 * 1024)

-- The fields that are not set are empty.
unfoldable pub reported_info : ℕ → DeviceHealth → DeviceInfo
unfolding health_values first_memory_mib
reported_info threshold d = record {
  uid = device_uid_from_pci_info d.bdf d.device_id;
  pci_address = d.bdf;
  model = prefixed d.device_id;
  model_name = d.model;
  family_name = "";
  mei_name = "";
  card_name = "";
  render_d_name = "";
  memory_mib = first_memory_mib d.memory;
  millicores = 0;
  device_type = "";
  max_vfs = 0;
  parent_uid = "";
  vf_profile = "";
  vf_index = 0;
  provisioned = false;
  driver = "";
  current_driver = "";
  pci_root = "";
  health_status = health_values threshold d.health [];
  vfio_device = "";
  iommu_group = "";
}

-- The numbers of the severities `WARNING` and `CRITICAL` of xpumapi.
module _ (warning critical : ℕ) where
  unfoldable pub unhealthy_threshold : Bool → ℕ
  unhealthy_threshold ignore_warning = if ignore_warning then critical else warning

  -- The loop over the devices, with the map so far.
  unfoldable pub devices_info : Bool → List DeviceHealth → DevicesInfo → DevicesInfo
  unfolding reported_info unhealthy_threshold
  devices_info ignore_warning [] found = found
  devices_info ignore_warning (d ∷ ds) found =
      let info = reported_info (unhealthy_threshold ignore_warning) d in
      devices_info ignore_warning ds (insert info.uid info found)

  -- `ConsumeXPUMDDeviceDetails`: whether to publish, and the devices after it.
  unfoldable pub consume_device_details :
      Bool → List DeviceHealth → DevicesInfo → Bool × DevicesInfo
  unfolding devices_info apply_device_updates
  consume_device_details ignore_warning ds allocatable =
      apply_device_updates (devices_info ignore_warning ds []) allocatable
