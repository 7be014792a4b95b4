-- ===== src/Qat/Plugin.antt =====
-- cmd/kubelet-qat-plugin/node_state.go and the claim methods of driver.go: the claims of the kubelet
-- against the PFs of pkg/qat/device. The allocatable VFs are copies, of which the methods read the name
-- and the address of the PF.
pub mod Partitioned
pub mod History
pub mod Start
use Prim.Native.String.{◌++◌ as str_append}
use intel_resource_drivers_f.Base.{
  ℕ, zero, suc, Bool, true, false, ◌&&◌, ◌||◌, String, List, [], ◌∷◌, ◌++◌, Option, none, some,
  Dict, lookup, insert, Result, ok, err, if◌then◌else◌, str_eq,
}
use intel_resource_drivers_f.Kubelet.{AllocationResult, ResourceClaim, Device}
use intel_resource_drivers_f.Helpers.{
  ClaimPreparations, Codec, Files, write_prepared_claims, unprepare_claim,
}
use intel_resource_drivers_f.Qat.Services.{unset, string_to_services, services_string}
use intel_resource_drivers_f.Qat.Types.{
  VfDevice, VfDevices, AllocatedDevices, PfDevice, uid, cdi_name, cdi_kind, control_node,
  driver_name,
}
use intel_resource_drivers_f.Qat.Sysfs.{Os, Host}
use intel_resource_drivers_f.Qat.Scan.{set_services, enable_vfs, new}
use intel_resource_drivers_f.Qat.Reconfig.{
  free, check_already_allocated, allocate_from_configured, allocate_with_reconfiguration,
}

-- `nodeState`, with the PFs that its VFs point to, by address.
pub record NodeState (W : Type 0) : Type 0 where
  pub pfs : List PfDevice
  pub allocatable : VfDevices
  pub prepared : ClaimPreparations
  pub node_name : String
  pub world : W

-- `nil_pointer` is where the code dereferences nil, which stops the program.
pub data Error : Type 0 where
  nil_pointer not_allocatable not_allocated checkpoint_failed : Error

pub record Env (W : Type 0) : Type 0 where
  pub os : Os W
  pub codec : Codec
  pub files : Files W
  pub prepared_claims_file_path : String

unfoldable pub pf_at : ℕ → List PfDevice → Option PfDevice
pf_at i [] = none
pf_at zero (p ∷ ps) = some p
pf_at (suc i) (p ∷ ps) = pf_at i ps

unfoldable pub set_pf : ℕ → PfDevice → List PfDevice → List PfDevice
set_pf i p [] = []
set_pf zero p (q ∷ ps) = p ∷ ps
set_pf (suc i) p (q ∷ ps) = q ∷ set_pf i p ps

insert_vfs : VfDevices → VfDevices → VfDevices
insert_vfs [] found = found
insert_vfs ((_, vf) ∷ vfs) found = insert_vfs vfs (insert (uid vf) vf found)

insert_allocated : AllocatedDevices → VfDevices → VfDevices
unfolding insert_vfs
insert_allocated [] found = found
insert_allocated ((_, vfs) ∷ claims) found = insert_allocated claims (insert_vfs vfs found)

-- `GetResourceDevices`: the VFs of all PFs, in the order that the loops visit them.
unfoldable pub resource_devices : List PfDevice → VfDevices → VfDevices
unfolding insert_vfs insert_allocated
resource_devices [] found = found
resource_devices (p ∷ ps) found =
    resource_devices ps
      (insert_allocated p.allocated_devices (insert_vfs p.available_devices found))

-- `deviceResources`: the name and the services of each VF.
unfoldable pub device_resources : List PfDevice → VfDevices → Option (List (String × String))
device_resources pfs [] = some []
device_resources pfs ((_, vf) ∷ vfs) = elim (pf_at vf.pfdevice pfs) [
  | none ↦ none
  | some p ↦ elim (device_resources pfs vfs) [
    | none ↦ none
    | some rest ↦ some ((uid vf, services_string p.services) ∷ rest)
  ]
]

new_device : AllocationResult → VfDevice → Device
new_device a vf = record {
  requests = a.request ∷ [];
  pool_name = a.pool;
  device_name = a.device;
  cdi_device_ids = cdi_name vf ∷ str_append cdi_kind (str_append "=" (uid control_node)) ∷ [];
  bus_id = none;
}

module _ {W : Type 0} where
  -- A method of the VF, which acts on its PF.
  unfoldable pub on_pf :
      {A : Type 0} → VfDevice → (Host W → A × Host W) → NodeState W → Option A × NodeState W
  on_pf v f s = elim (pf_at v.pfdevice s.pfs) [
    | none ↦ (none, s)
    | some p ↦
        let (a, h) = f (record { self = v.pfdevice; pf = p; world = s.world }) in
        (some a, record s { pfs = set_pf v.pfdevice h.pf s.pfs; world = h.world })
  ]

module _ {W : Type 0} (env : Env W) where
  -- `Allocate`: whether the VF is allocated, by the first of three ways that works, and whether the PF
  -- was reconfigured.
  unfoldable pub allocate_vf : VfDevice → ℕ → String → Host W → Option Bool × Host W
  allocate_vf v service requester h =
      let (configured, h1) = allocate_from_configured env.os v requester h in
      let (reconfigured, h2) = allocate_with_reconfiguration env.os v service requester h1 in
      if check_already_allocated env.os v service requester h
      then (some false, h)
      else if configured
      then (some false, h1)
      else if reconfigured
      then (some true, h2)
      else (none, h2)

  -- The clean-up of `Prepare`: every VF is freed from the claim, errors are dropped.
  free_all : String → VfDevices → NodeState W → NodeState W
  unfolding on_pf
  free_all claim_uid [] s = s
  free_all claim_uid ((_, vf) ∷ vfs) s =
      let (_, s') = on_pf vf (free env.os (uid vf) claim_uid) s in free_all claim_uid vfs s'

  -- One round of the loop of `Prepare`, for a device of this driver and node.
  prepare_one : String → AllocationResult → NodeState W → Result Error Device × NodeState W
  unfolding on_pf allocate_vf free_all new_device
  prepare_one claim_uid a s = elim (lookup a.device s.allocatable) [
    | none ↦ (err Error.not_allocatable, s)
    | some vf ↦
        let (r, s') = on_pf vf (allocate_vf vf unset claim_uid) s in
        elim r [
          | none ↦ (err Error.nil_pointer, s')
          | some none ↦ (err Error.not_allocated, free_all claim_uid s'.allocatable s')
          | some (some _) ↦ (ok (new_device a vf), s')
        ]
  ]

  prepare_loop :
      String → List AllocationResult → NodeState W → Result Error (List Device) × NodeState W
  unfolding prepare_one
  prepare_loop claim_uid [] s = (ok [], s)
  prepare_loop claim_uid (a ∷ rest) s =
      let skip = prepare_loop claim_uid rest s in
      let (r, s') = prepare_one claim_uid a s in
      let (rs, s'') = prepare_loop claim_uid rest s' in
      if str_eq a.driver driver_name && str_eq a.pool s.node_name
      then (elim r [
        | err e ↦ (err e, s')
        | ok d ↦ ((elim rs [ err e ↦ err e | ok ds ↦ ok (d ∷ ds) ]), s'')
      ])
      else skip

  -- The end of `Prepare`.
  record_claim : String → List Device → NodeState W → Result Error (List Device) × NodeState W
  record_claim claim_uid ds s =
      let prepared' = insert claim_uid ds s.prepared in
      let (e, w') =
        write_prepared_claims env.codec env.files env.prepared_claims_file_path prepared' s.world in
      (
        (elim e [ none ↦ ok ds | some _ ↦ err Error.checkpoint_failed ]),
        record s { prepared = prepared'; world = w' },
      )

  unfoldable pub prepare : ResourceClaim → NodeState W → Result Error (List Device) × NodeState W
  unfolding prepare_loop record_claim
  prepare claim s = elim claim.allocation [
    | none ↦ (err Error.nil_pointer, s)
    | some results ↦
        let (r, s') = prepare_loop claim.uid results s in
        elim r [ err e ↦ (err e, s') | ok ds ↦ record_claim claim.uid ds s' ]
  ]

  unfoldable pub prepare_resource_claim :
      ResourceClaim → NodeState W → Result Error (List Device) × NodeState W
  unfolding prepare
  prepare_resource_claim claim s = elim (lookup claim.uid s.prepared) [
    | some ds ↦ (ok ds, s)
    | none ↦ prepare claim s
  ]

  -- `PrepareResourceClaims`: the answers by claim UID.
  unfoldable pub prepare_resource_claims :
      List ResourceClaim
      → Dict (Result Error (List Device))
      → NodeState W
      → Dict (Result Error (List Device)) × NodeState W
  unfolding prepare_resource_claim
  prepare_resource_claims [] response s = (response, s)
  prepare_resource_claims (claim ∷ claims) response s =
      let (r, s') = prepare_resource_claim claim s in
      prepare_resource_claims claims (insert claim.uid r response) s'

  -- The claim is deleted and the file written, in the first round of the loop of `Unprepare`.
  drop_claim : String → NodeState W → Bool × NodeState W
  drop_claim claim_uid s =
      let (e, prepared', w') =
        unprepare_claim env.codec env.files env.prepared_claims_file_path claim_uid s.prepared
          s.world in
      ((elim e [ none ↦ true | some _ ↦ false ]), record s { prepared = prepared'; world = w' })

  -- `Free` of the VF of that name; an error of it is only logged.
  free_named : String → String → NodeState W → Result Error Bool × NodeState W
  unfolding on_pf
  free_named name claim_uid s = elim (lookup name s.allocatable) [
    | none ↦ (err Error.nil_pointer, s)
    | some vf ↦
        let (r, s') = on_pf vf (free env.os (uid vf) claim_uid) s in
        elim r [
          | none ↦ (err Error.nil_pointer, s')
          | some (err _) ↦ (ok false, s')
          | some (ok updated) ↦ (ok updated, s')
        ]
  ]

  -- The loop of `Unprepare`: it ends at the first VF whose PF was set back.
  unprepare_loop : String → List Device → NodeState W → Result Error Bool × NodeState W
  unfolding drop_claim free_named
  unprepare_loop claim_uid [] s = (ok false, s)
  unprepare_loop claim_uid (d ∷ ds) s =
      let (dropped, s1) = drop_claim claim_uid s in
      let (r, s2) = free_named d.device_name claim_uid s1 in
      let rest = unprepare_loop claim_uid ds s2 in
      if dropped
      then (elim r [ err e ↦ (err e, s2) | ok true ↦ (ok true, s2) | ok false ↦ rest ])
      else (err Error.checkpoint_failed, s1)

  unfoldable pub unprepare : String → NodeState W → Result Error Bool × NodeState W
  unfolding unprepare_loop
  unprepare claim_uid s =
      unprepare_loop claim_uid (elim (lookup claim_uid s.prepared) [ none ↦ [] | some ds ↦ ds ]) s

  -- The loop of `UnprepareResourceClaims`: an error for each claim that has one, and whether the
  -- resources are published again.
  unfoldable pub unprepare_resource_claims :
      List String
      → Dict (Option Error)
      → Bool
      → NodeState W
      → Dict (Option Error) × Bool × NodeState W
  unfolding unprepare
  unprepare_resource_claims [] response update_found s = (response, update_found, s)
  unprepare_resource_claims (uid ∷ uids) response update_found s =
      let (r, s') = unprepare uid s in
      elim r [
        | err e ↦ unprepare_resource_claims uids (insert uid (some e) response) update_found s'
        | ok updated ↦
            unprepare_resource_claims uids (insert uid none response) (update_found || updated) s'
      ]

  -- `getDefaultConfiguration`, of the host's part of the file: a PF whose services cannot be read or
  -- set is passed over.
  unfoldable pub apply_defaults : Dict String → ℕ → List PfDevice → W → List PfDevice × W
  apply_defaults config self [] w = ([], w)
  apply_defaults config self (p ∷ ps) w =
      let skip = apply_defaults config (suc self) ps w in
      elim (lookup p.device config) [
        | none ↦ (p ∷ skip.0, skip.1)
        | some text ↦ elim (string_to_services text) [
          | none ↦ (p ∷ skip.0, skip.1)
          | some services ↦
              let (_, h) =
                set_services env.os (services ∷ []) (record { self = self; pf = p; world = w }) in
              let (ps', w') = apply_defaults config (suc self) ps h.world in (h.pf ∷ ps', w')
        ]
      ]

  -- The loop of `newDriver` that enables the VFs, up to the first failure.
  enable_each : ℕ → List PfDevice → W → Option (List PfDevice) × W
  enable_each self [] w = (some [], w)
  enable_each self (p ∷ ps) w =
      let (r, h) = enable_vfs env.os (record { self = self; pf = p; world = w }) in
      let (rest, w') = enable_each (suc self) ps h.world in
      elim r [
        | err _ ↦ (none, h.world)
        | ok _ ↦ ((elim rest [ none ↦ none | some ps' ↦ some (h.pf ∷ ps') ]), w')
      ]

  -- The PFs as `newDriver` sets them up, with the host's part of the file of defaults if that can be
  -- read.
  unfoldable pub start_pfs : Option (Dict String) → W → Option (List PfDevice) × W
  unfolding enable_each apply_defaults
  start_pfs config w = elim (new env.os w) [
    | none ↦ (none, w)
    | some found ↦
        let (enabled, w') = enable_each 0 found w in
        elim enabled [
          | none ↦ (none, w')
          | some ps ↦ elim config [
            | none ↦ (some ps, w')
            | some c ↦ let (ps', w'') = apply_defaults c 0 ps w' in (some ps', w'')
          ]
        ]
  ]
