-- ===== src/Gaudi/Node.antt =====
-- `nodeState` of cmd/kubelet-gaudi-plugin/node_state.go, and the claim methods of driver.go. `Prepare` and
-- the `Unprepare` of the helpers hold the lock of the state, so each is one step.
pub mod Answers
pub mod Reader
pub mod Environment
use Prim.Native.String.{◌++◌ as str_append}
use intel_resource_drivers_f.Base.{
  Bool, true, false, ◌&&◌, not, String, List, [], ◌∷◌, ◌++◌, map, Option, none, some, Dict, lookup,
  insert, Result, ok, err, if◌then◌else◌, str_eq, ◌==◌, length, decimal, join, split,
}
use intel_resource_drivers_f.Kubelet.{AllocationResult, ResourceClaim, Device}
use intel_resource_drivers_f.Helpers.{
  ClaimPreparations, Codec, Files, FileError, write_prepared_claims, get_or_create_prepared_claims,
  unprepare_claim,
}
use intel_resource_drivers_f.Gaudi.Types.{
  DeviceInfo, DevicesInfo, driver_name, visible_devices_env_var_name, visible_modules_env_var_name,
  hl_visible_devices_env_var_name, cdi_name,
}
use intel_resource_drivers_f.Gaudi.Cdi.{
  CdiDevice, Spec, Registry, Ending, zero_device, qualified_name,
  add_detected_devices_to_cdi_registry, new_blank_device, delete_blank_devices,
}

-- `nodeState`; the allocatable devices are pointers, so a change of one is a change of the map.
pub record NodeState (W : Type 0) : Type 0 where
  pub allocatable : DevicesInfo
  pub prepared : ClaimPreparations
  pub node_name : String
  pub world : W

-- The systems that the driver talks to.
pub record Env (W : Type 0) : Type 0 where
  pub cdi : Registry W
  pub codec : Codec
  pub files : Files W
  pub prepared_claims_file_path : String
  pub gaudi_hook_path : String

pub data Error : Type 0 where
  no_allocation not_allocatable cdi_failed checkpoint_failed : Error

-- What `prepareAllocatedDevices` collects in its loop: the devices, and the three lists for the container.
pub record Collected : Type 0 where
  pub devices : List Device
  pub visible_device_indices : List String
  pub visible_module_indices : List String
  pub hl_visible_device_paths : List String

abbrev pub nothing : Collected
nothing = record {
  devices = [];
  visible_device_indices = [];
  visible_module_indices = [];
  hl_visible_device_paths = [];
}

-- One device, put in front of those that the loop collects behind it.
unfoldable pub collect : AllocationResult → DeviceInfo → Collected → Collected
collect a g c = record {
  devices =
      record {
        requests = a.request ∷ [];
        pool_name = a.pool;
        device_name = a.device;
        cdi_device_ids = cdi_name g ∷ [];
        bus_id = none;
      }
      ∷ c.devices;
  visible_device_indices = decimal g.device_idx ∷ c.visible_device_indices;
  visible_module_indices = decimal g.module_idx ∷ c.visible_module_indices;
  hl_visible_device_paths =
      str_append "/dev/accel/accel" (decimal g.device_idx) ∷ c.hl_visible_device_paths;
}

-- `name=a,b,c`
abbrev pub env_var : String → List String → String
env_var name values = str_append name (str_append "=" (join "," values))

-- The environment of the claim's blank device, in its order.
abbrev pub environment : Collected → List String
environment c =
    env_var visible_devices_env_var_name c.visible_device_indices
    ∷ env_var visible_modules_env_var_name c.visible_module_indices
    ∷ env_var hl_visible_devices_env_var_name c.hl_visible_device_paths
    ∷ []

-- The first device brings the blank device of the claim.
unfoldable pub with_blank : String → List Device → List Device
with_blank claim_uid [] = []
with_blank claim_uid (d ∷ ds) =
    record d { cdi_device_ids = d.cdi_device_ids ++ (qualified_name claim_uid ∷ []) } ∷ ds

-- `pciRoot` of a device whose root complex has two parts.
pci_bus : String → Option String
pci_bus root =
    if str_eq root "" then none else (elim (split b':' root) [ _ ∷ bus ∷ [] ↦ some bus | _ ↦ none ])

-- A device of the published slice, by its attributes.
pub record Published : Type 0 where
  pub name : String
  pub model : String
  pub pcie_root : String
  pub serial : String
  pub healthy : Bool
  pub pci_root : Option String

published : String × DeviceInfo → Published
unfolding pci_bus
published (name, g) = record {
  name = name;
  model = g.model_name;
  pcie_root = g.pci_root;
  serial = g.serial;
  healthy = g.healthy;
  pci_root = pci_bus g.pci_root;
}

-- `AllocatableByPCIAddress`, by the UID of the first device of that address.
unfoldable pub allocatable_by_pci_address : String → DevicesInfo → Option String
allocatable_by_pci_address pci_address [] = none
allocatable_by_pci_address pci_address ((uid, g) ∷ rest) =
    let later = allocatable_by_pci_address pci_address rest in
    if str_eq g.pci_address pci_address then some uid else later

module _ {W : Type 0} where
  abbrev pub is_ours : NodeState W → AllocationResult → Bool
  is_ours s a = str_eq a.driver driver_name && str_eq a.pool s.node_name

  -- The loop of `prepareAllocatedDevices`, up to the first device that is not allocatable.
  unfoldable pub collect_devices : List AllocationResult → NodeState W → Result Error Collected
  unfolding collect
  collect_devices [] s = ok nothing
  collect_devices (a ∷ rest) s =
      let later = collect_devices rest s in
      if is_ours s a
      then (elim (lookup a.device s.allocatable) [
        | none ↦ err Error.not_allocatable
        | some g ↦ elim later [ err e ↦ err e | ok c ↦ ok (collect a g c) ]
      ])
      else later

  -- `GetResources`: the devices of the one slice, in the one pool, that of the node.
  unfoldable pub get_resources : NodeState W → List Published
  unfolding published
  get_resources s = map published s.allocatable

module _ {W : Type 0} (env : Env W) where
  -- `cdiHabanaEnvVar`: the look-up is by the bare claim UID.
  unfoldable pub cdi_habana_env_var : String → List String → W → Bool × W
  cdi_habana_env_var claim_uid variables w = elim (env.cdi.get_device claim_uid w) [
    | some _ ↦
        let (spec, w') = env.cdi.put_env claim_uid variables w in
        env.cdi.write_spec spec spec.spec_name w'
    | none ↦
        new_blank_device env.cdi (record zero_device { name = claim_uid; env = variables })
          env.gaudi_hook_path w
  ]

  -- The end of `prepareAllocatedDevices`.
  finish_devices : String → Collected → NodeState W → Result Error (List Device) × NodeState W
  unfolding cdi_habana_env_var with_blank
  finish_devices claim_uid c s = elim c.devices [
    | [] ↦ (ok [], s)
    | d ∷ ds ↦
        let (added, w') = cdi_habana_env_var claim_uid (environment c) s.world in
        let s' = record s { world = w' } in
        if added then (ok (with_blank claim_uid (d ∷ ds)), s') else (err Error.cdi_failed, s')
  ]

  unfoldable pub prepare_allocated_devices :
      String → List AllocationResult → NodeState W → Result Error (List Device) × NodeState W
  unfolding collect_devices finish_devices
  prepare_allocated_devices claim_uid results s = elim (collect_devices results s) [
    | err e ↦ (err e, s)
    | ok c ↦ finish_devices claim_uid c s
  ]

  -- The end of `Prepare`: the claim is recorded, then written.
  record_claim : String → Result Error (List Device) × NodeState W → Option Error × NodeState W
  record_claim claim_uid (err e, s) = (some e, s)
  record_claim claim_uid (ok ds, s) =
      let s' = record s { prepared = insert claim_uid ds s.prepared } in
      let (e, w') =
        write_prepared_claims env.codec env.files env.prepared_claims_file_path s'.prepared
          s'.world in
      ((elim e [ none ↦ none | some _ ↦ some Error.checkpoint_failed ]), record s' { world = w' })

  unfoldable pub prepare : ResourceClaim → NodeState W → Option Error × NodeState W
  unfolding prepare_allocated_devices record_claim
  prepare claim s = elim claim.allocation [
    | none ↦ (some Error.no_allocation, s)
    | some results ↦ record_claim claim.uid (prepare_allocated_devices claim.uid results s)
  ]

  -- `s.Prepared[uid]`, where a missing claim reads as one without devices.
  abbrev pub preparation : String → ClaimPreparations → List Device
  preparation claim_uid prepared = elim (lookup claim_uid prepared) [ none ↦ [] | some ds ↦ ds ]

  -- `prepareResourceClaim` of driver.go.
  unfoldable pub prepare_resource_claim :
      ResourceClaim → NodeState W → Result Error (List Device) × NodeState W
  unfolding prepare
  prepare_resource_claim claim s = elim (lookup claim.uid s.prepared) [
    | some ds ↦ (ok ds, s)
    | none ↦
        let (e, s') = prepare claim s in
        ((elim e [ some x ↦ err x | none ↦ ok (preparation claim.uid s'.prepared) ]), s')
  ]

  unfoldable pub prepare_resource_claims :
      List ResourceClaim
      → Dict (Result Error (List Device))
      → NodeState W
      → Dict (Result Error (List Device)) × NodeState W
  unfolding prepare_resource_claim
  prepare_resource_claims [] response s = (response, s)
  prepare_resource_claims (claim ∷ claims) response s =
      let (r, s') = prepare_resource_claim claim s in
      prepare_resource_claims claims (insert claim.uid r response) s'

  -- One round of the loop of `UnprepareResourceClaims`: the blank device goes after the claim.
  unfoldable pub unprepare : String → NodeState W → Ending × NodeState W
  unprepare claim_uid s =
      let (e, prepared', w1) =
        unprepare_claim env.codec env.files env.prepared_claims_file_path claim_uid s.prepared
          s.world in
      let (ended, w2) = delete_blank_devices env.cdi claim_uid w1 in
      elim e [
        | some _ ↦ (Ending.failed, record s { prepared = prepared'; world = w1 })
        | none ↦ (ended, record s { prepared = prepared'; world = w2 })
      ]

  -- The answers by claim UID; a panic ends the program, and with it the loop.
  unfoldable pub unprepare_resource_claims :
      List String → Dict Ending → NodeState W → Option (Dict Ending × NodeState W)
  unfolding unprepare
  unprepare_resource_claims [] response s = some (response, s)
  unprepare_resource_claims (uid ∷ uids) response s =
      let (ended, s') = unprepare uid s in
      let rest = unprepare_resource_claims uids (insert uid ended response) s' in
      elim ended [ Ending.panicked ↦ none | Ending.done ↦ rest | Ending.failed ↦ rest ]

  -- `newNodeState`
  unfoldable pub new_node_state : DevicesInfo → String → W → Option (NodeState W) × W
  new_node_state detected_devices node_name w =
      let (configured, w1) = env.cdi.configure w in
      let (added, w2) = add_detected_devices_to_cdi_registry env.cdi detected_devices w1 in
      let (claims, w3) =
        get_or_create_prepared_claims env.codec env.files env.prepared_claims_file_path w2 in
      if not configured then (none, w1) else if not added then (none, w2) else (
        (elim claims [
          | err _ ↦ none
          | ok prepared ↦ some (record {
            allocatable = detected_devices;
            prepared = prepared;
            node_name = node_name;
            world = w3;
          })
        ]),
        w3,
      )
