-- ===== src/Gpu/Node.antt =====
-- `nodeState` of cmd/kubelet-gpu-plugin/node_state.go: preparing and unpreparing the devices of a claim.
-- Each operation holds the lock of the state, so it is one step.
pub mod Exclusive
pub mod Restart
pub mod Publish
use intel_resource_drivers_f.Base.{
  Bool, true, false, ◌&&◌, ◌||◌, not, String, List, [], ◌∷◌, ◌++◌, Option, none, some, Dict, lookup,
  insert, delete, any, Result, ok, err, if◌then◌else◌, str_eq, split,
}
use intel_resource_drivers_f.Kubelet.{
  AllocationResult, SubRequest, DeviceRequest, ResourceClaim, Device,
}
use intel_resource_drivers_f.Gpu.Types.{
  Health, health_eq, DeviceInfo, DevicesInfo, driver_name, vfio_device_class_name,
  unexpected_driver, cdi_name, mei_cdi_name, is_drm_bound, is_vfio_bound,
}
use intel_resource_drivers_f.Gpu.Sysfs.{Os}
use intel_resource_drivers_f.Gpu.Cdi.{Registry, remove_devices}
use intel_resource_drivers_f.Gpu.Claims.{
  PreparedDevice, ClaimPreparation, ClaimPreparations, Codec, Disk, prepare_result,
  write_prepared_claims,
}
use intel_resource_drivers_f.Gpu.Binding.{Error, Outcome, prepare_vfio_device, prepare_drm_device}

-- `nodeState`; the allocatable devices are pointers, so a change of one is a change of the map.
pub record NodeState (W : Type 0) : Type 0 where
  pub allocatable : DevicesInfo
  pub prepared : ClaimPreparations
  pub node_name : String
  pub manage_binding : Bool
  pub world : W

-- The systems that the driver talks to.
pub record Env (W : Type 0) : Type 0 where
  pub os : Os W
  pub cdi : Registry W
  pub codec : Codec
  pub disk : Disk W
  pub prepared_claims_file_path : String

-- Does the entry of another claim hold the device, without admin access?
abbrev pub uses : String → String → PreparedDevice → Bool
uses device_name pool_name d =
    not d.admin_access
    && (str_eq d.kubeletplugin_device.device_name device_name
        && str_eq d.kubeletplugin_device.pool_name pool_name)

unfoldable pub is_device_used_exclusively_already :
    String → String → String → ClaimPreparations → Bool
is_device_used_exclusively_already device_name pool_name claim_uid prepared =
    any (λ e. not (str_eq e.0 claim_uid) && any (uses device_name pool_name) e.1) prepared

sub_class_name : String → List SubRequest → String
sub_class_name name [] = ""
sub_class_name name (r ∷ rs) =
    if str_eq r.name name then r.device_class_name else sub_class_name name rs

-- The class of a request that is found by the first part of its name.
request_class_name : List String → DeviceRequest → String
unfolding sub_class_name
request_class_name parts r = elim r.exactly [
  | some class_name ↦ class_name
  | none ↦ elim parts [ _ ∷ sub ∷ [] ↦ sub_class_name sub r.first_available | _ ↦ "" ]
]

class_name_from : List String → List DeviceRequest → String
unfolding request_class_name
class_name_from [] rs = ""
class_name_from (part ∷ parts) [] = ""
class_name_from (part ∷ parts) (r ∷ rs) =
    let rest = class_name_from (part ∷ parts) rs in
    if str_eq r.name part then request_class_name (part ∷ parts) r else rest

-- `getRequestDeviceClassNameFromClaim`
unfoldable pub get_request_device_class_name : String → ResourceClaim → String
unfolding class_name_from
get_request_device_class_name request_name claim =
    class_name_from (split b'/' request_name) claim.requests

abbrev pub admin_of : AllocationResult → Bool
admin_of a = elim a.admin_access [ none ↦ false | some b ↦ b ]

new_prepared : AllocationResult → DeviceInfo → PreparedDevice
new_prepared a g = record {
  admin_access = admin_of a;
  kubeletplugin_device = record {
    requests = a.request ∷ [];
    pool_name = a.pool;
    device_name = a.device;
    cdi_device_ids =
        cdi_name g ∷ (if admin_of a && not (str_eq g.mei_name "") then mei_cdi_name g ∷ [] else []);
    bus_id = some g.pci_address;
  };
}

module _ {W : Type 0} (env : Env W) where
  -- The driver change that the class of the request asks for.
  prepare_driver : String → Bool → DeviceInfo → W → Outcome W
  prepare_driver class_name manage_binding g w =
      if str_eq class_name vfio_device_class_name
      then prepare_vfio_device env.os env.cdi manage_binding g w
      else prepare_drm_device env.os env.cdi manage_binding g w

  -- One round of the loop of `Prepare`, for a device of this driver and node; `need` is
  -- `needToPublishSlice`, which the driver change overwrites.
  prepare_one :
      ResourceClaim
      → AllocationResult
      → Bool
      → NodeState W
      → Result Error PreparedDevice × Bool × NodeState W
  unfolding new_prepared prepare_driver
  prepare_one claim a need s =
      if not (admin_of a) && is_device_used_exclusively_already a.device a.pool claim.uid s.prepared
      then (err Error.already_allocated, need, s)
      else (elim (lookup a.device s.allocatable) [
        | none ↦ (err Error.not_allocatable, need, s)
        | some g ↦
            let (e, need', g', w') =
              prepare_driver (get_request_device_class_name a.request claim) s.manage_binding g
                s.world in
            let s' = record s { allocatable = insert a.device g' s.allocatable; world = w' } in
            elim e [ some x ↦ (err x, need', s') | none ↦ (ok (new_prepared a g'), need', s') ]
      ])

  abbrev pub is_ours : NodeState W → AllocationResult → Bool
  is_ours s a = str_eq a.driver driver_name && str_eq a.pool s.node_name

  -- The device in front of those that the rest of the loop prepares.
  with_device :
      PreparedDevice
      → Result Error (List PreparedDevice) × Bool × NodeState W
      → Result Error (List PreparedDevice) × Bool × NodeState W
  with_device d (ok ds, need, s) = (ok (d ∷ ds), need, s)
  with_device d (err e, need, s) = (err e, need, s)

  -- The loop of `Prepare`, up to the first error.
  unfoldable pub prepare_loop :
      ResourceClaim
      → List AllocationResult
      → Bool
      → NodeState W
      → Result Error (List PreparedDevice) × Bool × NodeState W
  unfolding prepare_one with_device
  prepare_loop claim [] need s = (ok [], need, s)
  prepare_loop claim (a ∷ rest) need s =
      let skip = prepare_loop claim rest need s in
      let (r, need', s') = prepare_one claim a need s in
      if is_ours s a
      then (elim r [
        | err e ↦ (err e, need', s')
        | ok d ↦ with_device d (prepare_loop claim rest need' s')
      ])
      else skip

  save : NodeState W → Option Error × NodeState W
  save s =
      let (e, w') =
        write_prepared_claims env.codec env.disk env.prepared_claims_file_path s.prepared s.world in
      ((elim e [ none ↦ none | some _ ↦ some Error.checkpoint_failed ]), record s { world = w' })

  -- The end of `Prepare`: the claim is recorded, then written.
  pub record_claim :
      String
      → Result Error (List PreparedDevice) × Bool × NodeState W
      → Result Error (List Device) × Bool × NodeState W
  unfolding save
  record_claim uid (err e, need, s) = (err e, need, s)
  record_claim uid (ok ds, need, s) =
      let (e, s') = save (record s { prepared = insert uid ds s.prepared }) in
      ((elim e [ none ↦ ok (prepare_result ds) | some x ↦ err x ]), need, s')

  unfoldable pub prepare :
      ResourceClaim → NodeState W → Result Error (List Device) × Bool × NodeState W
  unfolding prepare_loop record_claim
  prepare claim s = elim claim.allocation [
    | none ↦ (err Error.no_allocation, false, s)
    | some results ↦ record_claim claim.uid (prepare_loop claim results false s)
  ]

  -- `prepareResourceClaim` of driver.go.
  unfoldable pub prepare_resource_claim :
      ResourceClaim → NodeState W → Result Error (List Device) × Bool × NodeState W
  unfolding prepare
  prepare_resource_claim claim s = elim (lookup claim.uid s.prepared) [
    | some ds ↦ (ok (prepare_result ds), false, s)
    | none ↦ prepare claim s
  ]

  -- The taint of an unexpected driver goes when the device is unprepared.
  clear_taint : DeviceInfo → Bool × DeviceInfo
  clear_taint g = elim (lookup unexpected_driver g.health_status) [
    | some Health.unhealthy ↦
        (true, record g { health_status = insert unexpected_driver Health.healthy g.health_status })
    | _ ↦ (false, g)
  ]

  -- The loop of `unprepareDevices`: whether to publish, the CDI names to remove, and the devices.
  unprepare_loop : List PreparedDevice → DevicesInfo → Bool × List String × DevicesInfo
  unfolding clear_taint
  unprepare_loop [] allocatable = (false, [], allocatable)
  unprepare_loop (d ∷ ds) allocatable =
      let name = d.kubeletplugin_device.device_name in
      elim (lookup name allocatable) [
        | none ↦ unprepare_loop ds allocatable
        | some g ↦
            let (cleared, g') = clear_taint g in
            let (need, ids, allocatable') = unprepare_loop ds (insert name g' allocatable) in
            (
              cleared || need,
              (if is_vfio_bound g' || is_drm_bound g'
                  then d.kubeletplugin_device.cdi_device_ids ++ ids
                  else ids),
              allocatable',
            )
      ]

  unfoldable pub unprepare_devices : ClaimPreparation → NodeState W → Bool × Bool × NodeState W
  unfolding unprepare_loop
  unprepare_devices ds s =
      let (need, ids, allocatable') = unprepare_loop ds s.allocatable in
      let (removed, _, w') = remove_devices env.os env.cdi ids s.world in
      (removed, need, record s { allocatable = allocatable'; world = w' })

  unfoldable pub unprepare : String → NodeState W → Option Error × Bool × NodeState W
  unfolding save unprepare_devices
  unprepare claim_uid s = elim (lookup claim_uid s.prepared) [
    | none ↦ (none, false, s)
    | some ds ↦
        let (removed, need, s') = unprepare_devices ds s in
        let (e, s'') = save (record s' { prepared = delete claim_uid s'.prepared }) in
        if removed then (e, need, s'') else (some Error.cdi_failed, need, s')
  ]
