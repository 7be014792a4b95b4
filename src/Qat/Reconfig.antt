-- ===== src/Qat/Reconfig.antt =====
-- `freePF`, `free` and the methods by which a VF is allocated and freed, in pkg/qat/device/device.go,
-- with the reconfiguration of the PF that these may start.
pub mod Keeps
pub mod Service
pub mod Owners
use intel_resource_drivers_f.Base.{
  Bool, true, false, ◌&&◌, ◌||◌, not, ℕ, String, List, [], ◌∷◌, Option, none, some, Result, ok, err,
  lookup, insert, has, if◌then◌else◌, str_eq, length, ◌==◌,
}
use intel_resource_drivers_f.Qat.Services.{none_service, supports}
use intel_resource_drivers_f.Qat.Types.{VfDevice, PfDevice, AllocatedDevices, Error, uid}
use intel_resource_drivers_f.Qat.Sysfs.{Os, Host, M}
use intel_resource_drivers_f.Qat.Scan.{set_services}
use intel_resource_drivers_f.Qat.Alloc.{allocate, held, give_back, devices_of}

-- `EnableReconfiguration`
unfoldable enable_reconfiguration : Bool → PfDevice → PfDevice
enable_reconfiguration allow p = record p { allow_reconfiguration = allow }

module _ {W : Type 0} (os : Os W) where
  -- With no VF allocated, and reconfiguration allowed, the PF is set back to no service.
  unfoldable pub reset : M W Bool
  unfolding set_services
  reset h =
      let (r, h') = set_services os (none_service ∷ []) h in
      if length h.pf.allocated_devices == 0 && h.pf.allow_reconfiguration
      then (elim r [ err e ↦ (err e, h') | ok _ ↦ (ok true, h') ])
      else (ok false, h)

  unfoldable pub free_pf : String → String → M W Bool
  unfolding held give_back reset
  free_pf device_uid requested_by h = elim (held device_uid requested_by h.pf.allocated_devices) [
    | none ↦ (err Error.device_not_found, h)
    | some vf ↦ reset (record h { pf = give_back requested_by vf h.pf })
  ]

  -- The loop of `free` over the claims, up to the first where `freePF` succeeds.
  free_any : String → AllocatedDevices → M W Bool
  unfolding free_pf
  free_any device_uid [] h = (err Error.device_not_found, h)
  free_any device_uid ((claim, _) ∷ claims) h =
      let (r, h') = free_pf device_uid claim h in
      elim r [ ok update ↦ (ok update, h') | err _ ↦ free_any device_uid claims h' ]

  unfoldable pub free : String → String → M W Bool
  unfolding free_any
  free device_uid requested_by h =
      if str_eq device_uid ""
      then (err Error.no_device_uid, h)
      else if str_eq requested_by ""
      then free_any device_uid h.pf.allocated_devices h
      else free_pf device_uid requested_by h

  unfoldable pub check_already_allocated : VfDevice → ℕ → String → Host W → Bool
  check_already_allocated v service requester h =
      supports h.pf.services service && has (uid v) (devices_of requester h.pf.allocated_devices)

  unfoldable pub allocate_from_configured : VfDevice → String → Host W → Bool × Host W
  allocate_from_configured v requester h =
      let (r, p) = allocate (uid v) requester h.pf in
      (elim r [ ok _ ↦ true | err _ ↦ false ], record h { pf = p })

  -- The part of `AllocateWithReconfiguration` after `SetServices`.
  pub after_set_services : VfDevice → String → Result Error (Unit {0}) × Host W → Bool × Host W
  after_set_services v requester (ok _, h) = allocate_from_configured v requester h
  after_set_services v requester (err _, h) = let (_, h') = free (uid v) requester h in (false, h')

  unfoldable pub allocate_with_reconfiguration : VfDevice → ℕ → String → Host W → Bool × Host W
  unfolding after_set_services
  allocate_with_reconfiguration v service requester h =
      if not (h.pf.services == none_service) || not h.pf.allow_reconfiguration
      then (false, h)
      else after_set_services v requester (set_services os (service ∷ []) h)
