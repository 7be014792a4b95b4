-- ===== src/Gpu/Discovery.antt =====
-- pkg/gpu/discovery: the GPUs that the files under /sys show. The root complex of a device is a parameter.
pub mod Found
pub mod New
use Prim.Native.String.{len, compare}
use Prim.Native.Nat.{Ordering}
use intel_resource_drivers_f.Base.{
  ℕ, Bool, true, false, ◌&&◌, ◌||◌, not, String, List, [], ◌∷◌, ◌++◌, Option, none, some, keep,
  insert, lookup, if◌then◌else◌, str_eq, ◌==◌, trim_space, numbered, parse_uint, join, from,
  has_prefix, contains, pci_regexp,
}
use intel_resource_drivers_f.Helpers.Uids.{device_uid_from_pci_info}
use intel_resource_drivers_f.Gpu.Types.{
  DeviceInfo, DevicesInfo, i915, xe, is_drm_bound, is_vfio_bound,
}
use intel_resource_drivers_f.Gpu.Models.{model_details, set_model_info, is_gpu_class}
use intel_resource_drivers_f.Gpu.Sysfs.{
  FilePath, Os, Link, base, device_file, get_vfio_device, get_iommu_group,
  deduce_card_and_render_d_names,
}
use intel_resource_drivers_f.Gpu.Probe.{Probe}
use intel_resource_drivers_f.Gpu.Memory.{get_xe_device_memory_mib, get_i915_device_memory_mib}
use intel_resource_drivers_f.Gpu.Sriov.{detect_sriov}
use intel_resource_drivers_f.Gpu.Mei.{discover_mei_device_for_gpu}

unfoldable pub determine_device_name : DeviceInfo → String → String
determine_device_name info naming_style =
    if str_eq naming_style "classic" then info.card_name else info.uid

-- The default driver of a device by its current one and its id.
unfoldable pub original_driver : String → String → Option String
original_driver current_driver device_id =
    if str_eq current_driver i915 || str_eq current_driver xe
    then some current_driver
    else (elim (lookup device_id model_details) [ none ↦ none | some d ↦ some d.driver ])

unfoldable pub new_device : String → String → String → String → DeviceInfo
new_device pci_address device_id current_driver driver = set_model_info (record {
  uid = device_uid_from_pci_info pci_address device_id;
  pci_address = pci_address;
  model = device_id;
  model_name = "";
  family_name = "";
  mei_name = "";
  card_name = "";
  render_d_name = "";
  memory_mib = 0;
  millicores = 1000;
  device_type = "gpu";
  max_vfs = 0;
  parent_uid = "";
  vf_profile = "";
  vf_index = 0;
  provisioned = false;
  driver = driver;
  current_driver = current_driver;
  pci_root = "";
  health_status = [];
  vfio_device = "";
  iommu_group = "";
})

module _ {W : Type 0} (os : Os W) (probe : Probe W) where
  unfoldable pub get_pci_device_driver : String → W → String
  get_pci_device_driver pci_address w =
      elim (os.read_link (device_file os pci_address ("driver" ∷ [])) w) [
        | Link.target path ↦ base path
        | Link.missing ↦ ""
        | Link.failed ↦ ""
      ]

  -- `readPCIInfo`: the vendor, the device and the class.
  unfoldable pub read_pci_info : String → W → String × String × String
  read_pci_info pci_address w =
      elim (probe.read_file (device_file os pci_address ("vendor" ∷ [])) w) [
        | none ↦ ("", "", "")
        | some vendor ↦ elim (probe.read_file (device_file os pci_address ("device" ∷ [])) w) [
          | none ↦ ("", "", "")
          | some device ↦ elim (probe.read_file (device_file os pci_address ("class" ∷ [])) w) [
            | none ↦ ("", "", "")
            | some class ↦ (trim_space vendor, trim_space device, trim_space class)
          ]
        ]
      ]

  -- What the current driver has of the device: the DRM and MEI names, or those of VFIO.
  unfoldable pub with_driver_files : DeviceInfo → W → Option DeviceInfo
  with_driver_files info w =
      if is_drm_bound info
      then (elim (deduce_card_and_render_d_names os (device_file os info.pci_address []) w) [
        | none ↦ none
        | some (card, render_d) ↦ some (record info {
          card_name = card;
          render_d_name = render_d;
          mei_name = discover_mei_device_for_gpu os probe info.pci_address w;
        })
      ])
      else if is_vfio_bound info
      then (elim (get_vfio_device os info.pci_address w) [
        | none ↦ none
        | some vfio ↦ elim (get_iommu_group os info.pci_address w) [
          | none ↦ none
          | some group ↦ some (record info { vfio_device = vfio; iommu_group = group })
        ]
      ])
      else some info

  with_pci_root : DeviceInfo → W → DeviceInfo
  with_pci_root info w = elim (probe.pcie_root info.pci_address w) [
    | none ↦ info
    | some root ↦ record info { pci_root = root }
  ]

  -- `DiscoverPCIDevice`, of the device at an address.
  unfoldable pub discover_pci_device : String → W → Option DeviceInfo
  unfolding new_device with_driver_files with_pci_root
  discover_pci_device pci_address w =
      let current = get_pci_device_driver pci_address w in
      let (vendor, device_id, class) = read_pci_info pci_address w in
      if not (str_eq vendor "0x8086") || not (is_gpu_class class)
      then none
      else (elim (original_driver current device_id) [
        | none ↦ none
        | some driver ↦
            elim (with_driver_files (new_device pci_address device_id current driver) w) [
              | none ↦ none
              | some info ↦ some (detect_sriov os probe (with_pci_root info w) device_id w)
            ]
      ])

  process_from : String → DevicesInfo → List String → W → DevicesInfo
  unfolding discover_pci_device
  process_from naming_style devices [] w = devices
  process_from naming_style devices (name ∷ names) w =
      let skip = process_from naming_style devices names w in
      if pci_regexp name
      then (elim (discover_pci_device name w) [
        | none ↦ skip
        | some info ↦
            process_from naming_style
              (insert (determine_device_name info naming_style) info devices) names w
      ])
      else skip

  unfoldable pub process_sysfs_pci_devices : String → W → DevicesInfo
  unfolding process_from
  process_sysfs_pci_devices naming_style w =
      elim (os.read_dir (os.sysfs_root ++ ("bus" ∷ "pci" ∷ "devices" ∷ [])) w) [
        | none ↦ []
        | some names ↦ process_from naming_style [] names w
      ]

  get_local_memory_amount_mib : String → String → W → Option ℕ
  get_local_memory_amount_mib card_name driver w =
      if str_eq card_name ""
      then some 0
      else if str_eq driver xe
      then get_xe_device_memory_mib probe card_name w
      else if str_eq driver i915
      then get_i915_device_memory_mib probe card_name w
      else none

  -- `populateDevicesInfoMemory`: the devices before the first failing query have their memory.
  unfoldable pub populate_devices_info_memory : DevicesInfo → W → DevicesInfo
  unfolding get_local_memory_amount_mib
  populate_devices_info_memory [] w = []
  populate_devices_info_memory ((name, info) ∷ devices) w =
      let rest = populate_devices_info_memory devices w in
      elim (get_local_memory_amount_mib info.card_name info.driver w) [
        | none ↦ (name, info) ∷ devices
        | some mib ↦ (name, record info { memory_mib = mib }) ∷ rest
      ]

  -- `DiscoverDevices`: a failing query is only logged.
  unfoldable pub discover_devices : String → W → DevicesInfo
  unfolding process_sysfs_pci_devices populate_devices_info_memory
  discover_devices naming_style w =
      populate_devices_info_memory (process_sysfs_pci_devices naming_style w) w
