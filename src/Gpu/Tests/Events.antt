-- ===== src/Gpu/Tests/Events.antt =====
-- A node whose one GPU was bound to a VFIO driver by a claim, and is bound to its DRM driver again.
use intel_resource_drivers_f.Base.{
  ◌≡◌, ◌≢◌, refl, true, String, [], ◌∷◌, Option, none, some, All, any, arith, if◌then◌else◌, str_eq,
  eq_iff, trim_space, lookup, numbered, parse_uint, digits, replace_all, contains,
}
use intel_resource_drivers_f.Gpu.Types.{DeviceInfo, i915, vfio_pci, is_drm_bound}
use intel_resource_drivers_f.Gpu.Models.{is_gpu_class, set_model_info}
use intel_resource_drivers_f.Helpers.Uids.{device_uid_from_pci_info}
use intel_resource_drivers_f.Gpu.Sysfs.{Os, Link, base, deduce_card_and_render_d_names}
use intel_resource_drivers_f.Gpu.Probe.{Probe}
use intel_resource_drivers_f.Gpu.Mei.{discover_mei_device_for_gpu}
use intel_resource_drivers_f.Gpu.Sriov.{detect_sriov}
use intel_resource_drivers_f.Gpu.Discovery.{
  read_pci_info, get_pci_device_driver, original_driver, discover_pci_device, discover_devices,
}
use intel_resource_drivers_f.Gpu.Discovery.Found.{IsListed, discover_devices-IsListed}
use intel_resource_drivers_f.Gpu.Node.{NodeState, Env, is_device_used_exclusively_already}
use intel_resource_drivers_f.Gpu.Resources.{get_resources}
use intel_resource_drivers_f.Gpu.Refresh.{
  allocatable_by_pci_address, refresh_device_on_driver_event,
}
use intel_resource_drivers_f.Gpu.Refresh.Taints.{evicted, refresh-evicted}
use intel_resource_drivers_f.Gpu.Tests.{Sys, os, env, gpu, gpu0_prepared}

abbrev bound_os : Os Sys
bound_os = record os {
  read_link = λ p w. Link.target ("drivers" ∷ "i915" ∷ []);
  read_dir = λ p w. some (
      if str_eq (base p) "drm"
      then "card0" ∷ "renderD128" ∷ []
      else "0000:03:00.0" ∷ "uevent" ∷ []);
}

abbrev file : String → Option String
file name =
    if str_eq name "vendor"
    then some "0x8086\n"
    else if str_eq name "device"
    then some "0x56a0\n"
    else if str_eq name "class"
    then some "0x030000\n"
    else if str_eq name "sriov_totalvfs"
    then some "7\n"
    else if str_eq name "sriov_drivers_autoprobe"
    then some "1\n"
    else none

abbrev probe : Probe Sys
probe = record {
  read_file = λ p w. file (base p);
  eval_symlinks = λ p w. none;
  pcie_root = λ address w. some "pci0000:00";
  xe_query_size = λ card w. none;
  xe_query_data = λ card w. none;
  i915_query_length = λ card w. none;
  i915_query_data = λ card w. none;
}

discover_devices-IsListed_example :
    All (IsListed "machine") (discover_devices bound_os probe "machine" [])
discover_devices-IsListed_example = discover_devices-IsListed bound_os probe "machine" []

abbrev found : DeviceInfo
found = record (gpu "0000-03-00-0-0x56a0" i915) {
  family_name = "Arc A-Series";
  memory_mib = 0;
  max_vfs = 7;
  pci_root = "pci0000:00";
}

abbrev event_env : Env Sys
event_env = record env { os = bound_os }

abbrev state : NodeState Sys
state = record {
  allocatable = ("gpu0", gpu "gpu0" vfio_pci) ∷ [];
  prepared = ("a", gpu0_prepared ∷ []) ∷ [];
  node_name = "node";
  manage_binding = true;
  world = [];
}

known :
    allocatable_by_pci_address "0000:03:00.0" state.allocatable ≡ some ("gpu0", gpu "gpu0" vfio_pci)
unfolding allocatable_by_pci_address
known = refl

seen : discover_pci_device bound_os probe "0000:03:00.0" [] ≡ some found
unfolding discover_pci_device read_pci_info base trim_space is_gpu_class original_driver
    get_pci_device_driver is_drm_bound set_model_info lookup deduce_card_and_render_d_names numbered
    detect_sriov parse_uint digits device_uid_from_pci_info discover_mei_device_for_gpu replace_all
    contains
seen = refl

other_driver : vfio_pci ≢ i915
other_driver e = absurd (ground (arith, e, eq_iff "vfio-pci" "i915"))

used : is_device_used_exclusively_already "gpu0" "node" "" state.prepared ≡ true
unfolding is_device_used_exclusively_already any
used = refl

refresh-evicted_example :
    ((refresh_device_on_driver_event event_env probe "0000:03:00.0" i915 state).0 ≡ true)
    × (any (evicted "gpu0") (
          get_resources
            (refresh_device_on_driver_event event_env probe "0000:03:00.0" i915 state).2)
        ≡ true)
refresh-evicted_example =
    refresh-evicted event_env probe "0000:03:00.0" i915 "gpu0" (gpu "gpu0" vfio_pci) found state
      known seen refl other_driver used
