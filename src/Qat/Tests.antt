-- ===== src/Qat/Tests.antt =====
-- The QAT driver on a PF of one VF, with a file system that keeps a text for each file name.
mod Runs
use intel_resource_drivers_f.Base.{
  if◌then◌else◌, str_eq, Option, atoi, split, pos, ◌≡◌, refl, ◌≢◌, true, false, String, List, [],
  ◌∷◌, ◌++◌, none, some, arith, Dict, lookup, insert, delete, has, any, All, err, eq_iff,
  replace_all, trim_space, length,
}
use intel_resource_drivers_f.Kubelet.{ResourceClaim}
use intel_resource_drivers_f.Qat.Services.{
  none_service, sym, configure, services_string, string_to_services,
}
use intel_resource_drivers_f.Qat.Services.Text.{canonical, string_to_services-services_string}
use intel_resource_drivers_f.Qat.Types.{
  string_to_state, State, VfDriver, VfDevice, PfDevice, Error, uid, device_uid, driver_name,
  state_string, string_to_driver,
}
use intel_resource_drivers_f.Qat.Sysfs.{
  sync_config, get_services, Os, Host, FilePath, base, read, write, up, down, update, enable_writes,
  enable_vfio,
}
use intel_resource_drivers_f.Qat.Sysfs.Triple.{Outcome}
use intel_resource_drivers_f.Qat.Scan.{
  new, set_services, enable_vfs, enable_all, get_vfs, scan_vfs, update_found, update_allocated,
}
use intel_resource_drivers_f.Qat.Scan.Idle.{Idle, Ready}
use intel_resource_drivers_f.Qat.Scan.Discovery.{
  vf_names, Apart, scan_vfs-append, scan_vfs_complete,
}
use intel_resource_drivers_f.Qat.Alloc.{allocate, held, take_vf, give_back, devices_of}
use intel_resource_drivers_f.Qat.Alloc.Partition.{Keyed, IsPartitioned, allocate-IsPartitioned}
use intel_resource_drivers_f.Qat.Alloc.Contract.{Answers, allocate-Answers, give_back-take_vf}
use intel_resource_drivers_f.Qat.Reconfig.{
  free, allocate_from_configured, allocate_with_reconfiguration,
}
use intel_resource_drivers_f.Qat.Reconfig.Keeps.{
  IsIdle-IsPartitioned, set_services_answers, free-IsPartitioned,
  with_reconfiguration-IsPartitioned,
}
use intel_resource_drivers_f.Qat.Reconfig.Service.{Reconfigured, with_reconfiguration_lem}
use intel_resource_drivers_f.Qat.Plugin.{
  resource_devices, start_pfs, NodeState, Env, prepare_resource_claim, prepare_resource_claims,
  unprepare, unprepare_resource_claims,
}
use intel_resource_drivers_f.Qat.Plugin.Start.{Unallocated, start_pfs-Unallocated}
use intel_resource_drivers_f.Qat.Plugin.History.{Reachable, Reachable-Partitioned}
use intel_resource_drivers_f.Qat.Plugin.Partitioned.{
  Partitioned, prepare_resource_claim-Partitioned, unprepare-Partitioned,
}

abbrev Sys : Type 0
Sys = Dict String

-- Where the links under /sys lead, by the name of the link.
abbrev links : Dict FilePath
links =
    ("virtfn0", "devices" ∷ "0000:3d:01.0" ∷ [])
    ∷ ("virtfn1", "devices" ∷ "0000:3d:01.1" ∷ [])
    ∷ ("0000:3d:00.0", "devices" ∷ "0000:3d:00.0" ∷ [])
    ∷ ("driver", "drivers" ∷ "vfio-pci" ∷ [])
    ∷ ("iommu_group", "iommu_groups" ∷ "42" ∷ [])
    ∷ []

abbrev os : Os Sys
os = record {
  sysfs_root = "sys" ∷ [];
  read_file = λ p w. lookup (base p) w;
  write_file = λ p text w. (none, insert (base p) text w);
  glob =
      λ p w. some (((if str_eq (base p) "virtfn*" then "virtfn0" else "0000:3d:00.0") ∷ []) ∷ []);
  eval_symlinks = λ p w. lookup (base p) links;
}

abbrev sys : Sys
sys =
    ("sriov_totalvfs", "1\n")
    ∷ ("sriov_numvfs", "0\n")
    ∷ ("state", "up\n")
    ∷ ("cfg_services", "sym\n")
    ∷ []

abbrev vf : VfDevice
vf = record {
  pfdevice = 0;
  vf_device = "0000:3d:01.0";
  vf_driver = VfDriver.vfio_pci;
  vf_iommu = "42";
}

abbrev pf : PfDevice
pf = record {
  allow_reconfiguration = true;
  device = "0000:3d:00.0";
  state = State.up;
  services = none_service;
  num_vfs = pos 1;
  total_vfs = pos 1;
  available_devices = (uid vf, vf) ∷ [];
  allocated_devices = [];
}

abbrev host : Host Sys
host = record { self = 0; pf = pf; world = sys }

keyed : Keyed pf.available_devices
keyed = (refl, tt)

pf-IsPartitioned : IsPartitioned pf
pf-IsPartitioned =
    IsIdle-IsPartitioned none_service true pf
      (record { unallocated = refl; keyed = keyed; services = refl; allows = refl })

is_available : lookup (uid vf) pf.available_devices ≡ some vf
unfolding lookup uid device_uid replace_all
is_available = refl

string_to_services-services_string_example :
    string_to_services (services_string 6) ≡ some (canonical 6)
string_to_services-services_string_example = string_to_services-services_string 6 (omega arith)

allocate-Answers_example : Answers (uid vf) "claim" pf (allocate (uid vf) "claim" pf)
allocate-Answers_example = allocate-Answers (uid vf) "claim" pf pf-IsPartitioned

give_back-take_vf_example :
    ((j : String)
      → lookup j (give_back "claim" vf (take_vf "claim" vf pf)).available_devices
        ≡ lookup j pf.available_devices)
    × ((d j : String)
        → held j d (give_back "claim" vf (take_vf "claim" vf pf)).allocated_devices
          ≡ held j d pf.allocated_devices)
give_back-take_vf_example = give_back-take_vf "claim" vf pf pf-IsPartitioned is_available

set_services_answers_example :
    ((pf.allocated_devices ≢ [])
      → set_services os (sym ∷ []) host ≡ (err Error.devices_allocated, host))
    × ((pf.allocated_devices ≡ [])
        → Outcome
            (Ready os (configure none_service (sym ∷ [])) true)
            (Idle os none_service true)
            (set_services os (sym ∷ []) host))
set_services_answers_example = set_services_answers os (sym ∷ []) host keyed

abbrev allocated : Host Sys
allocated = record host { pf = (allocate (uid vf) "claim" pf).1 }

reconfigures : (allocate_with_reconfiguration os vf sym "claim" host).0 ≡ true
unfolding allocate_with_reconfiguration set_services enable_vfs get_vfs enable_all scan_vfs
    update_found update_allocated read write up down update enable_writes enable_vfio base
    services_string configure trim_space allocate lookup insert delete uid device_uid replace_all
    take_vf devices_of state_string string_to_driver length any allocate_from_configured
reconfigures = refl

with_reconfiguration_lem_example :
    Reconfigured vf sym "claim" pf (allocate_with_reconfiguration os vf sym "claim" host).1.pf
with_reconfiguration_lem_example =
    with_reconfiguration_lem os vf sym "claim" host pf-IsPartitioned reconfigures

virtfn0_found : os.eval_symlinks ("virtfn0" ∷ []) sys ≡ some ("devices" ∷ "0000:3d:01.0" ∷ [])
unfolding lookup base
virtfn0_found = refl

virtfn0_known :
    has (device_uid (base ("devices" ∷ "0000:3d:01.0" ∷ []))) pf.available_devices ≡ true
unfolding lookup base uid device_uid replace_all
virtfn0_known = refl

scan_vfs-append_example :
    scan_vfs os 0 sys pf ([] ++ (("virtfn0" ∷ []) ∷ ("virtfn1" ∷ []) ∷ []))
    ≡ scan_vfs os 0 sys pf []
scan_vfs-append_example =
    scan_vfs-append os 0 sys pf [] (("virtfn1" ∷ []) ∷ []) ("virtfn0" ∷ [])
      ("devices" ∷ "0000:3d:01.0" ∷ []) virtfn0_found virtfn0_known

abbrev empty_pf : PfDevice
empty_pf = record pf { available_devices = [] }

abbrev virtfns : List FilePath
virtfns = ("virtfn0" ∷ []) ∷ ("virtfn1" ∷ []) ∷ []

virtfns-Apart : Apart os [] (vf_names os sys virtfns)
unfolding lookup base device_uid replace_all
virtfns-Apart = (
  refl,
  ((λ e. absurd (ground (arith, e, eq_iff "qatvf-0000-3d-01-0" "qatvf-0000-3d-01-1"))), tt),
  (refl, tt, tt),
)

scan_vfs_complete_example :
    All
      (λ d. has (device_uid d) (scan_vfs os 0 sys empty_pf virtfns).available_devices ≡ true)
      (vf_names os sys virtfns)
scan_vfs_complete_example = scan_vfs_complete os 0 sys empty_pf virtfns refl virtfns-Apart

abbrev env : Env Sys
env = record {
  os = os;
  codec = record { marshal = λ claims. some "{}"; unmarshal = λ text. some [] };
  files = record {
    is_missing = λ path w. false;
    create_file = λ path w. (true, w);
    write_string = λ path text w. (true, w);
    read_file = λ path w. lookup path w;
    write_file = λ path text w. (true, insert path text w);
  };
  prepared_claims_file_path = "preparedClaims.json";
}

abbrev node : NodeState Sys
node = record {
  pfs = pf ∷ [];
  allocatable = (uid vf, vf) ∷ [];
  prepared = [];
  node_name = "node";
  world = sys;
}

abbrev claim : ResourceClaim
claim = record {
  uid = "claim";
  requests = [];
  allocation = some (
      (record {
        request = "qat";
        driver = driver_name;
        pool = "node";
        device = uid vf;
        admin_access = none;
      })
      ∷ []);
}

abbrev defaults : Option (Dict String)
defaults = some (("0000:3d:00.0", "dc") ∷ [])

abbrev started_pfs : List PfDevice
started_pfs = elim (start_pfs env defaults sys).0 [ none ↦ [] | some ps ↦ ps ]

starts : (start_pfs env defaults sys).0 ≡ some started_pfs
unfolding start_pfs new sync_config get_services set_services enable_vfs get_vfs enable_all scan_vfs
    update_found update_allocated read write up down update enable_writes enable_vfio base atoi
    split services_string string_to_services configure trim_space lookup insert uid device_uid
    replace_all state_string string_to_state string_to_driver length any
starts = refl

abbrev started_node : NodeState Sys
started_node = record {
  pfs = started_pfs;
  allocatable = resource_devices started_pfs [];
  prepared = [];
  node_name = "node";
  world = (start_pfs env defaults sys).1;
}

start_pfs-Unallocated_example : All Unallocated started_pfs
start_pfs-Unallocated_example = start_pfs-Unallocated env defaults sys started_pfs starts

Reachable-Partitioned_example :
    Partitioned
      (unprepare_resource_claims env
        ("claim" ∷ [])
        []
        false
        (prepare_resource_claims env (claim ∷ []) [] started_node).1).2
Reachable-Partitioned_example =
    Reachable-Partitioned env
      (unprepare_resource_claims env ("claim" ∷ []) [] false
        (prepare_resource_claims env (claim ∷ []) [] started_node).1).2
      (Reachable.unprepared ("claim" ∷ []) _ (
        Reachable.prepared (claim ∷ []) _
          (Reachable.started defaults [] "node" sys started_pfs starts)))
