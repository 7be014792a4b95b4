-- ===== src/Gaudi/Tests.antt =====
-- The Gaudi driver on a node of two devices.
use intel_resource_drivers_f.Base.{
  any, ℕ, ◌≡◌, ◌≢◌, refl, true, false, String, List, [], ◌∷◌, ◌++◌, Option, none, some, lookup,
  keep, All, Distinct, ok, pos, arith, if◌then◌else◌, str_eq, parse_uint, FilePath, Tree,
  pci_regexp, glob, strip_prefix, digits, trim_space, insert, replace_all,
}
use intel_resource_drivers_f.Kubelet.{AllocationResult}
use intel_resource_drivers_f.Gaudi.Types.{DeviceInfo, DevicesInfo, driver_name, set_model_name}
use intel_resource_drivers_f.Helpers.Uids.{device_uid_from_pci_info}
use intel_resource_drivers_f.Gaudi.Discovery.{determine_device_name, discover_devices}
use intel_resource_drivers_f.Gaudi.Discovery.Found.{IsFound, discover_devices-IsFound}
use intel_resource_drivers_f.Gaudi.Cdi.{
  CdiDevice, Spec, Registry, zero_device, filtered_devices, qualified_name, write_spec,
}
use intel_resource_drivers_f.Gaudi.Cdi.Blank.{named, left, filtered_devices_lem}
use intel_resource_drivers_f.Gaudi.Node.{
  NodeState, Collected, environment, is_ours, collect_devices,
}
use intel_resource_drivers_f.Gaudi.Node.Answers.{
  Pair, look_up_all, described, summary, collect_devices_lem,
}
use intel_resource_drivers_f.Gaudi.Node.Environment.{IndicesFit, ReadsBack, environment-ReadsBack}
use intel_resource_drivers_f.Gaudi.Health.{Hlml, Cluster, Event, tick, start_health_monitor}
use intel_resource_drivers_f.Gaudi.Health.Keeps.{StateDeclines, start_health_monitor-StateDeclines}
use intel_resource_drivers_f.Gaudi.Health.Critical.{Caught, tick-Caught}
use intel_resource_drivers_f.Gaudi.Driver.{get_gaudi_flags, ocp_habana_hook_path}

-- One device, whose files are found by their last component.
abbrev last : FilePath → String
last [] = ""
last (c ∷ []) = c
last (c ∷ d ∷ cs) = last (d ∷ cs)

abbrev content : String → Option String
content name =
    if str_eq name "device"
    then some "0x1020\n"
    else if str_eq name "module_id"
    then some "3\n"
    else none

abbrev listing : String → Option (List String)
listing name =
    if str_eq name "habanalabs"
    then some ("0000:0f:00.0" ∷ "bind" ∷ [])
    else if str_eq name "accel"
    then some ("accel12" ∷ "power" ∷ [])
    else none

abbrev tree : Tree
tree = record {
  sysfs_root = "sys" ∷ [];
  read_dir = λ p. listing (last p);
  read_file = λ p. content (last p);
  read_link = λ p. none;
}

abbrev pcie_root : String → Option String
pcie_root address = some "pci0000:0e"

abbrev gaudi : String → ℕ → ℕ → String → DeviceInfo
gaudi uid device_idx module_idx serial = record {
  uid = uid;
  pci_address = "0000:0f:00.0";
  model = "0x1020";
  model_name = "Gaudi2";
  device_idx = device_idx;
  module_idx = module_idx;
  pci_root = "pci0000:0e";
  uverbs_idx = 1024;
  serial = serial;
  healthy = true;
}

discover_devices-IsFound_example :
    All (IsFound "machine") (discover_devices tree pcie_root "machine")
discover_devices-IsFound_example = discover_devices-IsFound tree pcie_root "machine"

found_one :
    discover_devices tree pcie_root "machine"
    ≡ ("0000-0f-00-0-0x1020", gaudi "0000-0f-00-0-0x1020" 12 3 "") ∷ []
unfolding discover_devices pci_regexp glob strip_prefix parse_uint digits trim_space insert
    determine_device_name set_model_name device_uid_from_pci_info lookup replace_all
found_one = refl

-- CDI

abbrev blank : CdiDevice
blank = record zero_device { name = "claim"; env = "A=1" ∷ [] }

abbrev devices : List CdiDevice
devices = record zero_device { name = "g0" } ∷ record zero_device { name = "g1" } ∷ []

filtered_devices_lem_example :
    filtered_devices "claim" (blank ∷ devices ++ (blank ∷ []))
    ≡ left "claim"
        (blank ∷ devices ++ (blank ∷ []))
        (named "claim" (blank ∷ devices ++ (blank ∷ [])))
filtered_devices_lem_example = filtered_devices_lem "claim" (blank ∷ devices ++ (blank ∷ []))

-- A cache with one file, whose state is the spec in it.
abbrev one_file : Registry Spec
one_file = record {
  accel_dev_path = "dev" ∷ "accel" ∷ [];
  infiniband_dev_path = "dev" ∷ "infiniband" ∷ [];
  configure = λ w. (true, w);
  gaudinet_exists = λ w. true;
  vendor_specs = λ w. w ∷ [];
  get_device =
      λ name w. if any (λ d. str_eq (qualified_name d.name) name) w.devices then some w else none;
  put = λ s w. s;
  put_env = λ name env w. (w, w);
  write_spec = λ s name w. (true, s);
  remove_spec = λ name w. (true, w);
  minimum_required_version = λ s. some "0.5.0";
  generate_name_for_spec = λ s. some "gaudi.yaml";
}

abbrev gaudi_spec : Spec
gaudi_spec = record {
  kind = "habana.ai/gaudi";
  version = "0.3.0";
  spec_name = "gaudi.yaml";
  path = "/etc/cdi/gaudi.yaml";
  devices = devices;
}

-- Claims

abbrev first : DeviceInfo
first = gaudi "g0" 0 7 "AN0"

abbrev second : DeviceInfo
second = gaudi "g1" 11 6 "AN1"

abbrev allocatable : DevicesInfo
allocatable = ("g0", first) ∷ ("g1", second) ∷ []

abbrev state : NodeState (List String)
state = record { allocatable = allocatable; prepared = []; node_name = "node"; world = [] }

abbrev take : String → String → AllocationResult
take driver name = record {
  request = "r";
  driver = driver;
  pool = "node";
  device = name;
  admin_access = none;
}

abbrev results : List AllocationResult
results = take driver_name "g1" ∷ take "gpu.intel.com" "gpu0" ∷ take driver_name "g0" ∷ []

collect_devices_lem_example :
    collect_devices results state
    ≡ described (look_up_all state.allocatable (keep (is_ours state) results))
collect_devices_lem_example = collect_devices_lem results state

abbrev pairs : List Pair
pairs = (take driver_name "g0", first) ∷ []

abbrev collected : Collected
collected = summary ((take driver_name "g1", second) ∷ pairs)

allocatable-fits : All IndicesFit allocatable
allocatable-fits = ((omega arith, omega arith), ((omega arith, omega arith), tt))

results_known :
    look_up_all allocatable (keep (is_ours state) results)
    ≡ some ((take driver_name "g1", second) ∷ pairs)
unfolding look_up_all lookup
results_known = refl

results-collected : collect_devices results state ≡ ok collected
unfolding collect_devices lookup
results-collected = refl

environment-ReadsBack_example :
    ReadsBack ((take driver_name "g1", second) ∷ pairs) (environment collected)
environment-ReadsBack_example =
    environment-ReadsBack results state collected (take driver_name "g1", second) pairs
      allocatable-fits results_known results-collected

-- Health: a handle is the serial itself.

abbrev event : Event
event = record { etype = 2; serial = "AN1" }

abbrev hlml : Hlml (List String) String
hlml = record {
  initialize = λ w. (true, w);
  device_count = λ w. some 2;
  device_handle_by_index = λ i w. some "AN0";
  device_handle_by_serial = λ serial w. some serial;
  serial_number = λ handle w. some handle;
  pci_bus_id = λ handle w. some "0000:0f:00.0";
  register_event_for_device = λ serial w. (str_eq serial "AN1", w);
  wait_for_event = λ w. (some event, w);
  critical_error = 2;
}

abbrev cluster : Cluster (List String)
cluster = record {
  has_taint_rule = λ name w. false;
  create_taint_rule = λ rule w. (true, rule.name ∷ w);
  publish_resources = λ slice w. (true, w);
}

start_health_monitor-StateDeclines_example :
    StateDeclines hlml cluster state (start_health_monitor hlml cluster 3 state)
start_health_monitor-StateDeclines_example = start_health_monitor-StateDeclines hlml cluster 3 state

allocatable-Distinct : Distinct allocatable
unfolding lookup
allocatable-Distinct = (refl, (refl, tt))

critical_nonzero : hlml.critical_error ≢ 0
critical_nonzero e = absurd (omega (arith, e))

tick-Caught_example : Caught hlml cluster "AN1" [] allocatable (tick hlml cluster state).allocatable
tick-Caught_example =
    tick-Caught hlml cluster state event [] (refl, (refl, tt)) allocatable-Distinct critical_nonzero
      refl refl

-- Flags

on_open_shift :
    get_gaudi_flags
      (record { gaudi_hook_path = ""; healthcare = true; healthcare_interval = pos 5 })
      (some ("apps" ∷ "config.openshift.io" ∷ []))
    ≡ ok (record {
      gaudi_hook_path = ocp_habana_hook_path;
      healthcare = true;
      healthcare_interval = pos 5;
    })
unfolding get_gaudi_flags
on_open_shift = refl
