-- ===== src/Gpu/Tests.antt =====
-- The GPU driver on a node of two GPUs, with a file system that keeps a text for each file name. The runs are
-- in the modules below.
mod Encoding
mod Events
mod Streams
mod Memory
mod Reports
mod Bindings
mod Calls
use intel_resource_drivers_f.Base.{
  List, leb, ◌≡◌, refl, ◌≢◌, ◌↔◌, Bool, true, false, not, ◌&&◌, String, [], ◌∷◌, map, Option, none,
  some, arith, Dict, lookup, insert, delete, has, any, keep, ok, err, if◌then◌else◌, str_eq, eq_iff,
  numbered, lookup-insert_self, Distinct,
}
use intel_resource_drivers_f.Kubelet.{AllocationResult, ResourceClaim}
use intel_resource_drivers_f.Gpu.Types.{
  Health, DeviceInfo, i915, vfio_pci, driver_name, cdi_kind, overall, device_absent, is_vfio_bound,
}
use intel_resource_drivers_f.Gpu.Health.{apply_health_status}
use intel_resource_drivers_f.Gpu.Health.Publish.{
  is_custom, lookup-apply_health_status, silent_unhealthy, first_report_silent,
}
use intel_resource_drivers_f.Gpu.Xpumd.{Reading, health_values}
use intel_resource_drivers_f.Gpu.Xpumd.Severity.{Fresh, health_values-unhealthy}
use intel_resource_drivers_f.Gpu.Sysfs.{
  Os, Link, base, ensure_kernel_module_loaded, unbind_device, bind_device, get_vfio_device,
  get_iommu_group, deduce_card_and_render_d_names,
}
use intel_resource_drivers_f.Gpu.Cdi.{
  Registry, Spec, CdiDevice, remove_all, remove_devices, update_gpu_devices, get_gpu_specs,
  write_new_spec, add_gpu_device, add_devices_to_spec, cdi_device, without,
}
use intel_resource_drivers_f.Gpu.Cdi.Removal.{without_all, remove_all_lem}
use intel_resource_drivers_f.Gpu.Claims.{
  PreparedDevice, ClaimPreparations, Checkpoint, Codec, Disk, checkpoint_kind,
  checkpoint_api_version, FileError, prepare_result, write_prepared_claims,
  get_or_create_prepared_claims,
}
use intel_resource_drivers_f.Gpu.Tests.Encoding.{codec}
use intel_resource_drivers_f.Gpu.Claims.Restart.{Lossless, Durable, get_or_create-write}
use intel_resource_drivers_f.Gpu.Binding.{
  Error, deduce_target_vfio_driver, change_kernel_driver, prepare_vfio_device, prepare_drm_device,
}
use intel_resource_drivers_f.Gpu.Binding.Drivers.{
  binding_disabled_lem, prepare_vfio_device-driver, prepare_drm_device-driver,
}
use intel_resource_drivers_f.Gpu.Node.{
  NodeState, Env, is_device_used_exclusively_already, prepare_loop, record_claim,
  prepare_resource_claim, prepare, unprepare,
}
use intel_resource_drivers_f.Gpu.Node.Publish.{prepare_loop_forgets}
use intel_resource_drivers_f.Gpu.Driver.{prepare_resource_claims, unprepare_resource_claims}
use intel_resource_drivers_f.Gpu.Driver.History.{Reachable, Reachable-Exclusive}
use intel_resource_drivers_f.Gpu.Node.Exclusive.{
  Exclusive, prepare_resource_claim-Exclusive, unprepare-Exclusive,
}
use intel_resource_drivers_f.Gpu.Node.Restart.{
  record_claim-retry, Repeats, Saved, SavedIfOk, prepare_resource_claim-Repeats, unprepare-lookup,
  prepare-Saved, unprepare-Saved,
}

abbrev Sys : Type 0
Sys = Dict String

abbrev os : Os Sys
os = record {
  sysfs_root = "sys" ∷ [];
  exists = λ p w. true;
  read_link = λ p w. Link.target ("drivers" ∷ "7" ∷ []);
  read_dir =
      λ p w. some (if str_eq (base p) "drm" then "card0" ∷ "renderD128" ∷ [] else "vfio3" ∷ []);
  writable = λ p w. true;
  write_string = λ p text w. (true, insert (base p) text w);
  sync = λ p w. (true, w);
}

abbrev cdi_dev : String → CdiDevice
cdi_dev name = record { name = name; device_nodes = []; mounts = [] }

abbrev spec : Spec
spec = record {
  kind = cdi_kind;
  version = "0.5.0";
  spec_name = "gpu.yaml";
  stem = "gpu";
  devices = cdi_dev "gpu0" ∷ cdi_dev "gpu1" ∷ [];
}

abbrev cdi : Registry Sys
cdi = record {
  devfs_root = "dev" ∷ [];
  vendor_specs = λ w. spec ∷ [];
  write_spec = λ s name w. (true, insert name s.kind w);
  remove_spec = λ name w. (true, delete name w);
  minimum_required_version = λ s. some "0.5.0";
  generate_name_for_spec = λ s. some "gpu.yaml";
}

abbrev gpu : String → String → DeviceInfo
gpu uid current = record {
  uid = uid;
  pci_address = "0000:03:00.0";
  model = "0x56a0";
  model_name = "A770";
  family_name = "Arc";
  mei_name = "";
  card_name = "card0";
  render_d_name = "renderD128";
  memory_mib = 8;
  millicores = 1000;
  device_type = "gpu";
  max_vfs = 0;
  parent_uid = "";
  vf_profile = "";
  vf_index = 0;
  provisioned = false;
  driver = i915;
  current_driver = current;
  pci_root = "";
  health_status = [];
  vfio_device = "";
  iommu_group = "";
}

abbrev disk : Disk Sys
disk = record {
  is_missing = λ path w. not (has path w);
  read_file = λ path w. lookup path w;
  write_file = λ path text w. (true, insert path text w);
}

disk-Durable : Durable disk
disk-Durable path text w h =
    (ground (arith, lookup-insert_self path text w), lookup-insert_self path text w)

abbrev env : Env Sys
env = record {
  os = os;
  cdi = cdi;
  codec = codec;
  disk = disk;
  prepared_claims_file_path = "preparedClaims.json";
}

abbrev node : NodeState Sys
node = record {
  allocatable = ("gpu0", gpu "gpu0" i915) ∷ ("gpu1", gpu "gpu1" i915) ∷ [];
  prepared = [];
  node_name = "node";
  manage_binding = true;
  world = [];
}

abbrev claim : String → String → ResourceClaim
claim uid driver = record {
  uid = uid;
  requests = [];
  allocation = some (
      (record {
        request = "gpu";
        driver = driver;
        pool = "node";
        device = "gpu0";
        admin_access = none;
      })
      ∷ []);
}

abbrev gpu0_prepared : PreparedDevice
gpu0_prepared = record {
  admin_access = false;
  kubeletplugin_device = record {
    requests = "gpu" ∷ [];
    pool_name = "node";
    device_name = "gpu0";
    cdi_device_ids = "intel.com/gpu=gpu0" ∷ [];
    bus_id = some "0000:03:00.0";
  };
}
