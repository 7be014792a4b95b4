-- ===== src/Qat/Scan.antt =====
-- `New`, `getVFs`, `EnableVFs` and `SetServices` of pkg/qat/device/device.go: finding the VFs of a PF,
-- and taking the PF down and up around a change of its services.
pub mod Idle
pub mod Discovery
use intel_resource_drivers_f.Base.{
  ℕ, suc, pos, Bool, true, false, ◌++◌, List, [], ◌∷◌, String, Option, none, some, Result, ok, err,
  Dict, has, lookup, insert, if◌then◌else◌, str_eq, length, ltb,
}
use intel_resource_drivers_f.Qat.Services.{none_service, configure, services_string, unset}
use intel_resource_drivers_f.Qat.Types.{
  State, VfDriver, VfDevice, VfDevices, AllocatedDevices, PfDevice, Error, uid, device_uid,
}
use intel_resource_drivers_f.Qat.Sysfs.{
  FilePath, Os, Host, M, ◌>>=◌, ◌>>◌, continue, pure, raise, get_pf, put_pf, base, file_of,
  sysfs_device_path, sysfs_driver_path, read, write, sync_config, up, down, update, enable_vfio,
  qat_services, num_vfs_file, total_vfs_file,
}

-- `findVFDevice`, and the update in place of what it finds.
unfoldable pub update_found : (VfDevice → VfDevice) → String → VfDevices → Option VfDevices
update_found f target [] = none
update_found f target ((k, d) ∷ devices) =
    let rest = update_found f target devices in
    if str_eq d.vf_device target
    then some ((k, f d) ∷ devices)
    else elim rest [ none ↦ none | some devices' ↦ some ((k, d) ∷ devices') ]

-- The loop over the claims, up to the first that holds the VF.
unfoldable pub update_allocated :
    (VfDevice → VfDevice) → String → AllocatedDevices → Option AllocatedDevices
unfolding update_found
update_allocated f target [] = none
update_allocated f target ((claim, devices) ∷ claims) =
    let rest = update_allocated f target claims in
    elim (update_found f target devices) [
      | some devices' ↦ some ((claim, devices') ∷ claims)
      | none ↦ elim rest [ none ↦ none | some claims' ↦ some ((claim, devices) ∷ claims') ]
    ]

module _ {W : Type 0} (os : Os W) where
  new_vf : ℕ → W → String → VfDevice
  unfolding update
  new_vf self w vfdevice =
      update os
        (record {
          pfdevice = self;
          vf_device = vfdevice;
          vf_driver = VfDriver.unbound;
          vf_iommu = "";
        })
        w

  -- A VF that is not available: one that a claim holds is updated, any other is new.
  scan_vf : ℕ → W → PfDevice → String → PfDevice
  unfolding new_vf update_allocated uid
  scan_vf self w p vfdevice =
      elim (update_allocated (λ v. update os v w) vfdevice p.allocated_devices) [
        | some claims ↦ record p { allocated_devices = claims }
        | none ↦
            let vf = new_vf self w vfdevice in
            record p { available_devices = insert (uid vf) vf p.available_devices }
      ]

  -- The loop of `getVFs`: it goes on past a path that is no symlink, and breaks off at a VF that
  -- is available already.
  unfoldable pub scan_vfs : ℕ → W → PfDevice → List FilePath → PfDevice
  unfolding scan_vf
  scan_vfs self w p [] = p
  scan_vfs self w p (path ∷ paths) = elim (os.eval_symlinks path w) [
    | none ↦ scan_vfs self w p paths
    | some vfpath ↦ elim (has (device_uid (base vfpath)) p.available_devices) [
      | true ↦ p
      | false ↦ scan_vfs self w (scan_vf self w p (base vfpath)) paths
    ]
  ]

  -- `getVFs`: no paths are an empty list, and a bad pattern is ignored.
  unfoldable pub get_vfs : Host W → Host W
  unfolding scan_vfs
  get_vfs h = elim (os.glob (file_of os h.pf.device ("virtfn*" ∷ [])) h.world) [
    | none ↦ h
    | some paths ↦ record h { pf = scan_vfs h.self h.world h.pf paths }
  ]

  -- The loop of `EnableVFs` over the available VFs, up to the first failure.
  unfoldable pub enable_all : VfDevices → W → Result Error (Unit {0}) × VfDevices × W
  unfolding enable_vfio
  enable_all [] w = (ok tt, [], w)
  enable_all ((k, vf) ∷ vfs) w =
      let (e, vf', w1) = enable_vfio os vf w in
      let (r, vfs', w2) = enable_all vfs w1 in
      elim e [
        | some _ ↦ (err Error.write_failed, (k, vf') ∷ vfs, w1)
        | none ↦ (r, (k, vf') ∷ vfs', w2)
      ]

  enable_available : M W (Unit {0})
  unfolding enable_all
  enable_available h =
      let (r, vfs, w) = enable_all h.pf.available_devices h.world in
      (r, record h { pf = record h.pf { available_devices = vfs }; world = w })

  rescan : M W (Unit {0})
  rescan h = (ok tt, get_vfs h)

  unfoldable pub enable_vfs : M W (Unit {0})
  unfolding read write get_vfs enable_available rescan up
  enable_vfs = do
    totalvfs ← read os total_vfs_file
    write os num_vfs_file totalvfs
    rescan
    enable_available
    up os

  -- When the services cannot be written, a PF that was up is brought up again, and the error of
  -- that is dropped.
  recover : State → Error → M W (Unit {0})
  unfolding enable_vfs
  recover State.up e h = let (_, h') = enable_vfs h in (err e, h')
  recover State.down e h = (err e, h)

  write_services : State → ℕ → M W (Unit {0})
  unfolding recover write
  write_services device_state config h =
      let (r, h') = write os qat_services (services_string config) h in
      elim r [ ok _ ↦ (ok tt, h') | err e ↦ recover device_state e h' ]

  apply_services : State → ℕ → M W (Unit {0})
  unfolding write_services down enable_vfs
  apply_services device_state config = do
    down os
    write_services device_state config
    enable_vfs
    put_pf (λ p. record p { services = config })

  unfoldable pub set_services : List ℕ → M W (Unit {0})
  unfolding apply_services
  set_services srv h =
      if ltb 0 (length h.pf.allocated_devices)
      then (err Error.devices_allocated, h)
      else apply_services h.pf.state (configure none_service srv) h

  -- A PF as `New` makes it, before its configuration is read.
  unfoldable pub fresh_pf : String → PfDevice
  fresh_pf device = record {
    allow_reconfiguration = false;
    device = device;
    state = State.down;
    services = unset;
    num_vfs = pos 0;
    total_vfs = pos 0;
    available_devices = [];
    allocated_devices = [];
  }

  -- One round of the loop of `New`: the PF at the address `self`, or none if it is skipped.
  unfoldable pub new_pf : ℕ → FilePath → W → Option PfDevice
  unfolding fresh_pf sync_config get_vfs
  new_pf self path w = elim (os.eval_symlinks path w) [
    | none ↦ none
    | some target ↦
        let (r, h) =
          sync_config os (record { self = self; pf = fresh_pf (base target); world = w }) in
        elim r [ err _ ↦ none | ok _ ↦ some (get_vfs h).pf ]
  ]

  -- The PFs that the loop appends, from the address `self` on.
  unfoldable pub new_pfs : ℕ → List FilePath → W → List PfDevice
  unfolding new_pf
  new_pfs self [] w = []
  new_pfs self (path ∷ paths) w = elim (new_pf self path w) [
    | none ↦ new_pfs self paths w
    | some pf ↦ pf ∷ new_pfs (suc self) paths w
  ]

  -- `New`
  unfoldable pub new : W → Option (List PfDevice)
  unfolding new_pfs
  new w = elim (os.glob (sysfs_driver_path os ++ ("4xxx" ∷ "????:??:??.?" ∷ [])) w) [
    | none ↦ none
    | some paths ↦ some (new_pfs 0 paths w)
  ]
