-- ===== src/Qat/Alloc/Maps.antt =====
-- What the map updates of Qat/Alloc do to each device of each claim.
use intel_resource_drivers_f.Base.{
  ◌≡◌, refl, ◌≢◌, inl, inr, String, [], ◌∷◌, none, some, arith, Result, ok, err, lookup, insert,
  delete, if◌then◌else◌, str_eq, eq_iff, length, lookup-insert, lookup-delete, Option-cases,
  str_eq-cases,
}
use intel_resource_drivers_f.Qat.Types.{VfDevice, VfDevices, AllocatedDevices, PfDevice, Error, uid}
use intel_resource_drivers_f.Qat.Alloc.{
  pick, devices_of, take_vf, put_devices, held, give_back, allocate,
}

pub held-insert :
    (c d j : String) (devices : VfDevices) (claims : AllocatedDevices)
    → held j d (insert c devices claims)
      ≡ (if str_eq c d then lookup j devices else held j d claims)
unfolding held
held-insert c d j devices claims = ground (arith, lookup-insert c d devices claims)

pub held-delete :
    (c d j : String) (claims : AllocatedDevices)
    → held j d (delete c claims) ≡ (if str_eq c d then none else held j d claims)
unfolding held
held-delete c d j claims = ground (arith, lookup-delete c d claims)

pub lookup-devices_of :
    (j c : String) (claims : AllocatedDevices) → lookup j (devices_of c claims) ≡ held j c claims
unfolding held devices_of lookup
lookup-devices_of j c claims = elim (Option-cases (lookup c claims)) [
  | inl e ↦ rw (e, devices_of, held)
  | inr (m, e) ↦ rw (e, devices_of, held)
]

lookup_empty : (j : String) (m : VfDevices) → length m ≡ 0 → lookup j m ≡ none
unfolding lookup
lookup_empty j [] h = refl
lookup_empty j (x ∷ m) h = absurd (omega arith)

pub held-put_devices :
    (c d j : String) (devices : VfDevices) (claims : AllocatedDevices)
    → held j d (put_devices c devices claims)
      ≡ (if str_eq c d then lookup j devices else held j d claims)
unfolding put_devices
held-put_devices c d j devices claims =
    ground
      (arith, held-insert c d j devices claims, held-delete c d j claims, lookup_empty j devices)

-- `Allocate` gives the claim the VF, and touches no other device of any claim.
pub held-take_vf :
    (c d j : String) (v : VfDevice) (p : PfDevice)
    → held j d (take_vf c v p).allocated_devices ≡ (
        if str_eq c d
        then (if str_eq (uid v) j then some v else held j d p.allocated_devices)
        else held j d p.allocated_devices)
unfolding take_vf
held-take_vf c d j v p = ground (
  arith,
  held-insert c d j (insert (uid v) v (devices_of c p.allocated_devices)) p.allocated_devices,
  lookup-insert (uid v) j v (devices_of c p.allocated_devices),
  lookup-devices_of j c p.allocated_devices,
  eq_iff c d,
)

-- `freePF` takes the VF from the claim, and touches no other device of any claim.
pub held-give_back :
    (c d j : String) (v : VfDevice) (p : PfDevice)
    → held j d (give_back c v p).allocated_devices ≡ (
        if str_eq c d
        then (if str_eq (uid v) j then none else held j d p.allocated_devices)
        else held j d p.allocated_devices)
unfolding give_back
held-give_back c d j v p = ground (
  arith,
  held-put_devices c d j (delete (uid v) (devices_of c p.allocated_devices)) p.allocated_devices,
  lookup-delete (uid v) j (devices_of c p.allocated_devices),
  lookup-devices_of j c p.allocated_devices,
  eq_iff c d,
)

pub available-take_vf :
    (c j : String) (v : VfDevice) (p : PfDevice)
    → lookup j (take_vf c v p).available_devices
      ≡ (if str_eq (uid v) j then none else lookup j p.available_devices)
unfolding take_vf
available-take_vf c j v p = lookup-delete (uid v) j p.available_devices

pub available-give_back :
    (c j : String) (v : VfDevice) (p : PfDevice)
    → lookup j (give_back c v p).available_devices
      ≡ (if str_eq (uid v) j then some v else lookup j p.available_devices)
unfolding give_back
available-give_back c j v p = lookup-insert (uid v) j v p.available_devices

-- To split on what `Allocate` does: refuse, or take a VF that it picks.
pub allocate_cases {ℓ} :
    (P : Result Error VfDevice × PfDevice → Type ℓ) (u c : String) (p : PfDevice)
    → ((e : Error) → P (err e, p))
    → ((v : VfDevice) → c ≢ "" → pick u p.available_devices ≡ ok v → P (ok v, take_vf c v p))
    → P (allocate u c p)
unfolding allocate
allocate_cases P u c p refused taken = elim (str_eq-cases c "") [
  | inl (t, _) ↦ rw (t, allocate) (refused Error.no_allocator)
  | inr (t, n) ↦ rw (t, allocate) (go (pick u p.available_devices) refl n)
]
  where
    go :
        (r : Result Error VfDevice)
        → pick u p.available_devices ≡ r
        → c ≢ ""
        → P (elim r [ err e ↦ (err e, p) | ok vf ↦ (ok vf, take_vf c vf p) ])
    go (ok v) e n = taken v n e
    go (err x) e n = refused x
