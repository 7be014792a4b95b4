-- ===== src/Qat/Reconfig/Keeps.antt =====
-- `SetServices`, `free` and the allocation with reconfiguration, on every outcome.
use intel_resource_drivers_f.Base.{
  ℕ, ◌≡◌, refl, ◌≢◌, ◌⊎◌, inl, inr, Bool, true, ◌||◌, not, String, List, [], ◌∷◌, none, some, arith,
  Result, ok, err, lookup, str_eq, length, ltb, ◌==◌, Option-cases, Bool-cases,
}
use intel_resource_drivers_f.Qat.Services.{none_service, configure}
use intel_resource_drivers_f.Qat.Types.{VfDevice, AllocatedDevices, PfDevice, Error, uid}
use intel_resource_drivers_f.Qat.Sysfs.{Os, Host}
use intel_resource_drivers_f.Qat.Sysfs.Triple.{Outcome}
use intel_resource_drivers_f.Qat.Alloc.{held, give_back}
use intel_resource_drivers_f.Qat.Alloc.Partition.{
  Keyed, IsPartitioned, give_back-IsPartitioned, allocate-IsPartitioned,
}
use intel_resource_drivers_f.Qat.Scan.{set_services}
use intel_resource_drivers_f.Qat.Scan.Idle.{IsIdle, Idle, Ready, set_services_lem}
use intel_resource_drivers_f.Qat.Reconfig.{
  reset, free_pf, free_any, free, allocate_from_configured, after_set_services,
  allocate_with_reconfiguration,
}

length-eq-zero : (m : AllocatedDevices) → length m ≡ 0 → m ≡ []
length-eq-zero [] h = refl
length-eq-zero (x ∷ m) h = absurd (omega arith)

pub empty_or_not : (m : AllocatedDevices) → (m ≡ []) ⊎ (ltb 0 (length m) ≡ true)
empty_or_not [] = inl refl
empty_or_not (x ∷ m) = inr (ground arith)

pub IsIdle-IsPartitioned : (s : ℕ) (a : Bool) (p : PfDevice) → IsIdle s a p → IsPartitioned p
unfolding held lookup
IsIdle-IsPartitioned s a p i = record {
  keyed = i.keyed;
  held_keyed = λ c u v e. absurd (ground (arith, i.unallocated));
  apart = λ c u v e. absurd (ground (arith, i.unallocated));
  one_owner = λ c d u v w e f. absurd (ground (arith, i.unallocated));
}

module _ {W : Type 0} (os : Os W) where
  pub IsIdle-now :
      (h : Host W)
      → Keyed h.pf.available_devices
      → h.pf.allocated_devices ≡ []
      → IsIdle h.pf.services h.pf.allow_reconfiguration h.pf
  IsIdle-now h k e = record { unallocated = e; keyed = k; services = refl; allows = refl }

  pub refused :
      (srv : List ℕ) (h : Host W)
      → ltb 0 (length h.pf.allocated_devices) ≡ true
      → set_services os srv h ≡ (err Error.devices_allocated, h)
  unfolding set_services
  refused srv h t = rw t

  -- Let the available VFs be filed under their UIDs. With a VF allocated, `SetServices` returns an
  -- error and changes nothing. With none, it leaves the PF up with `None` and the requested
  -- services, or returns an error and leaves the services as they were; either way no VF is
  -- allocated and the flag for reconfiguration is kept.
  pub set_services_answers :
      (srv : List ℕ) (h : Host W)
      → Keyed h.pf.available_devices
      → ((h.pf.allocated_devices ≢ []) → set_services os srv h ≡ (err Error.devices_allocated, h))
        × ((h.pf.allocated_devices ≡ [])
            → Outcome
                (Ready os (configure none_service srv) h.pf.allow_reconfiguration)
                (Idle os h.pf.services h.pf.allow_reconfiguration)
                (set_services os srv h))
  set_services_answers srv h k = (
    (λ n. elim (empty_or_not h.pf.allocated_devices) [
      | inl e ↦ absurd (n e)
      | inr t ↦ refused srv h t
    ]),
    (λ e.
        (set_services_lem os h.pf.services h.pf.allow_reconfiguration srv).at h (IsIdle-now h k e)),
  )

  set_services-IsPartitioned :
      (srv : List ℕ) (h : Host W) → IsPartitioned h.pf → IsPartitioned (set_services os srv h).1.pf
  set_services-IsPartitioned srv h i = elim (empty_or_not h.pf.allocated_devices) [
    | inl e ↦
        let r = set_services os srv h in
        let s = h.pf.services in
        let a = h.pf.allow_reconfiguration in
        partitioned (configure none_service srv) s a r ((set_services_answers srv h i.keyed).1 e)
    | inr t ↦ rw (refused srv h t) i
  ]
    where
      partitioned :
          (c s : ℕ) (a : Bool) (r : Result Error (Unit {0}) × Host W)
          → Outcome (Ready os c a) (Idle os s a) r
          → IsPartitioned r.1.pf
      partitioned c s a (ok x, h) o = IsIdle-IsPartitioned c a h.pf o.0
      partitioned c s a (err e, h) o = IsIdle-IsPartitioned s a h.pf o

  reset_state :
      (h : Host W)
      → ((reset os h).1 ≡ h) ⊎ ((reset os h).1 ≡ (set_services os (none_service ∷ []) h).1)
  unfolding reset
  reset_state h = ground arith

  reset-IsPartitioned : (h : Host W) → IsPartitioned h.pf → IsPartitioned (reset os h).1.pf
  reset-IsPartitioned h i = elim (reset_state h) [
    | inl e ↦ rw e i
    | inr e ↦ rw e (set_services-IsPartitioned (none_service ∷ []) h i)
  ]

  -- To split on whether the claim holds the VF.
  free_pf_cases :
      (u c : String) (h : Host W)
      → ((held u c h.pf.allocated_devices ≡ none)
          × (free_pf os u c h ≡ (err Error.device_not_found, h)))
        ⊎ ((v : VfDevice) × (held u c h.pf.allocated_devices ≡ some v)
            × (free_pf os u c h ≡ reset os (record h { pf = give_back c v h.pf })))
  unfolding free_pf
  free_pf_cases u c h = elim (Option-cases (held u c h.pf.allocated_devices)) [
    | inl e ↦ inl (e, rw (e, free_pf))
    | inr (v, e) ↦ inr (v, e, rw (e, free_pf))
  ]

  free_pf-IsPartitioned :
      (u c : String) (h : Host W) → IsPartitioned h.pf → IsPartitioned (free_pf os u c h).1.pf
  free_pf-IsPartitioned u c h i = elim (free_pf_cases u c h) [
    | inl (_, e) ↦ rw e i
    | inr (v, m, e) ↦ rw e (
        reset-IsPartitioned (record h { pf = give_back c v h.pf })
          (give_back-IsPartitioned c v h.pf i (rw (i.held_keyed c u v m) m)))
  ]

  free_any-IsPartitioned :
      (u : String) (claims : AllocatedDevices) (h : Host W)
      → IsPartitioned h.pf
      → IsPartitioned (free_any os u claims h).1.pf
  unfolding free_any
  free_any-IsPartitioned u [] h i = i
  free_any-IsPartitioned u ((c, _) ∷ claims) h i =
      go (free_pf os u c h) (free_pf-IsPartitioned u c h i)
        (λ k j. free_any-IsPartitioned u claims k j)
    where
      go :
          (r : Result Error Bool × Host W)
          → IsPartitioned r.1.pf
          → ((k : Host W) → IsPartitioned k.pf → IsPartitioned (free_any os u claims k).1.pf)
          → IsPartitioned
              (elim r.0 as (λ _. Result Error Bool × Host W) [
                | ok update ↦ (ok update, r.1)
                | err _ ↦ free_any os u claims r.1
              ]).1.pf
      go (ok b, k) j f = j
      go (err e, k) j f = f k j

  -- If a PF is partitioned, so that each VF is filed under its UID, none is both available and held,
  -- and none is held by two claims, it is so too after `free`, with the reset of the PF that this
  -- may start, whichever of the steps fails.
  pub free-IsPartitioned :
      (u c : String) (h : Host W) → IsPartitioned h.pf → IsPartitioned (free os u c h).1.pf
  unfolding free
  free-IsPartitioned u c h i = elim (Bool-cases (str_eq u "")) [
    | inl t ↦ rw (t, free) i
    | inr t ↦ elim (Bool-cases (str_eq c "")) [
      | inl s ↦ rw (t, s, free) (free_any-IsPartitioned u h.pf.allocated_devices h i)
      | inr s ↦ rw (t, s, free) (free_pf-IsPartitioned u c h i)
    ]
  ]

  pub from_configured-IsPartitioned :
      (v : VfDevice) (c : String) (h : Host W)
      → IsPartitioned h.pf
      → IsPartitioned (allocate_from_configured os v c h).1.pf
  unfolding allocate_from_configured
  from_configured-IsPartitioned v c h i = allocate-IsPartitioned (uid v) c h.pf i

  -- If a PF is partitioned, so that each VF is filed under its UID, none is both available and held,
  -- and none is held by two claims, it is so too after `AllocateWithReconfiguration`, whichever of
  -- the steps fails.
  pub with_reconfiguration-IsPartitioned :
      (v : VfDevice) (service : ℕ) (c : String) (h : Host W)
      → IsPartitioned h.pf
      → IsPartitioned (allocate_with_reconfiguration os v service c h).1.pf
  unfolding allocate_with_reconfiguration
  with_reconfiguration-IsPartitioned v service c h i =
      elim (Bool-cases (not (h.pf.services == none_service) || not h.pf.allow_reconfiguration)) [
        | inl t ↦ rw (t, allocate_with_reconfiguration) i
        | inr t ↦
            rw (t, allocate_with_reconfiguration)
              (go (set_services os (service ∷ []) h)
                (set_services-IsPartitioned (service ∷ []) h i))
      ]
    where
      go :
          (r : Result Error (Unit {0}) × Host W)
          → IsPartitioned r.1.pf
          → IsPartitioned (after_set_services os v c r).1.pf
      go (ok x, k) j = from_configured-IsPartitioned v c k j
      go (err e, k) j = free-IsPartitioned (uid v) c k j
