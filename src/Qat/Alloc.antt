-- ===== src/Qat/Alloc.antt =====
-- `Allocate` of pkg/qat/device/device.go, and the part of `freePF` that moves a VF back, which are
-- about the two maps of a PF alone.
pub mod Maps
pub mod Contract
pub mod Partition
use intel_resource_drivers_f.Base.{
  Bool, true, false, String, [], ◌∷◌, Option, none, some, Result, ok, err, lookup, insert, delete,
  if◌then◌else◌, str_eq, length, ltb, ◌==◌,
}
use intel_resource_drivers_f.Qat.Types.{VfDevice, VfDevices, AllocatedDevices, PfDevice, Error, uid}

-- Any available VF: the one that a `range` loop visits first.
pub first_vf : VfDevices → Option VfDevice
first_vf [] = none
first_vf ((_, vf) ∷ _) = some vf

unfoldable pub pick : String → VfDevices → Result Error VfDevice
unfolding first_vf
pick device_uid available =
    if str_eq device_uid ""
    then (elim (first_vf available) [ none ↦ err Error.no_more_devices | some vf ↦ ok vf ])
    else (elim (lookup device_uid available) [
      | none ↦ err (Error.no_such_device device_uid)
      | some vf ↦ ok vf
    ])

-- The VFs of a claim; a claim that is not in the map has none.
unfoldable pub devices_of : String → AllocatedDevices → VfDevices
devices_of claim claims = elim (lookup claim claims) [ none ↦ [] | some devices ↦ devices ]

-- The two map updates of `Allocate`.
unfoldable pub take_vf : String → VfDevice → PfDevice → PfDevice
unfolding devices_of
take_vf allocated_by vf p = record p {
  available_devices = delete (uid vf) p.available_devices;
  allocated_devices =
      insert allocated_by (insert (uid vf) vf (devices_of allocated_by p.allocated_devices))
        p.allocated_devices;
}

unfoldable pub allocate : String → String → PfDevice → Result Error VfDevice × PfDevice
unfolding pick take_vf
allocate device_uid allocated_by p =
    if str_eq allocated_by ""
    then (err Error.no_allocator, p)
    else (elim (pick device_uid p.available_devices) [
      | err e ↦ (err e, p)
      | ok vf ↦ (ok vf, take_vf allocated_by vf p)
    ])

-- A claim with no VF left is deleted.
pub put_devices : String → VfDevices → AllocatedDevices → AllocatedDevices
put_devices claim devices claims =
    if length devices == 0 then delete claim claims else insert claim devices claims

-- The VF that a claim holds under a device UID.
unfoldable pub held : String → String → AllocatedDevices → Option VfDevice
held device_uid claim claims = elim (lookup claim claims) [
  | none ↦ none
  | some devices ↦ lookup device_uid devices
]

-- The map updates of `freePF` at a VF that the claim holds.
unfoldable pub give_back : String → VfDevice → PfDevice → PfDevice
unfolding devices_of put_devices
give_back requested_by vf p = record p {
  available_devices = insert (uid vf) vf p.available_devices;
  allocated_devices =
      put_devices requested_by (delete (uid vf) (devices_of requested_by p.allocated_devices))
        p.allocated_devices;
}
