-- ===== src/Qat/Reconfig/Owners.antt =====
-- The view that its clients have of a PF: each VF has an owner. What Qat/Alloc does to the maps of a PF is
-- one change of an owner.
pub mod Runs
use intel_resource_drivers_f.Base.{
  ◌≡◌, ◌≢◌, refl, sym, ap, subst, ◌∙◌, inl, inr, Bool, true, false, ◌&&◌, String, List, [], ◌∷◌,
  Option, none, some, Result, ok, err, lookup, arith, eq_iff, str_eq, All, if◌then◌else◌,
  str_eq-cases, Option-cases, Bool-cases, length, ◌==◌,
}
use intel_resource_drivers_f.Qat.Types.{VfDevice, PfDevice, Error, uid}
use intel_resource_drivers_f.Qat.Sysfs.{Os, Host}
use intel_resource_drivers_f.Qat.Alloc.{allocate, take_vf, give_back, held, pick}
use intel_resource_drivers_f.Qat.Alloc.Maps.{
  held-take_vf, held-give_back, available-take_vf, available-give_back,
}
use intel_resource_drivers_f.Qat.Alloc.Partition.{
  IsPartitioned, allocate-IsPartitioned, give_back-IsPartitioned, Keyed-lookup,
}
use intel_resource_drivers_f.Qat.Reconfig.{reset, free_pf, free}

-- Who has a device.
pub data Owner : Type 0 where
  absent : Owner
  nobody : VfDevice → Owner
  claim : String → VfDevice → Owner

abbrev pub Owners : Type 0
Owners = String → Owner

abbrev pub set_owner : String → Owner → Owners → Owners
set_owner device owner owners = λ key. if str_eq device key then owner else owners key

pub data Call : Type 0 where
  take release : String → String → Call

-- A call names its device and its claim.
abbrev pub IsNamed : Call → Type 0
IsNamed (Call.take device requester) = (device ≢ "") × (requester ≢ "")
IsNamed (Call.release device requester) = (device ≢ "") × (requester ≢ "")

-- A device that nobody has is given to the claim.
unfoldable pub take_owner : String → String → Owners → Bool × Owners
take_owner device requester owners = elim (owners device) [
  | Owner.nobody v ↦ (true, set_owner device (Owner.claim requester v) owners)
  | Owner.absent ↦ (false, owners)
  | Owner.claim _ _ ↦ (false, owners)
]

-- A device that the claim has is nobody's again.
unfoldable pub release_owner : String → String → Owners → Bool × Owners
release_owner device requester owners = elim (owners device) [
  | Owner.claim c v ↦
      if str_eq c requester
      then (true, set_owner device (Owner.nobody v) owners)
      else (false, owners)
  | Owner.absent ↦ (false, owners)
  | Owner.nobody _ ↦ (false, owners)
]

unfoldable pub call_owner : Call → Owners → Bool × Owners
call_owner (Call.take device requester) = take_owner device requester
call_owner (Call.release device requester) = release_owner device requester

-- The answers of a run, true on success, and the owners after it.
unfoldable pub run_owners : List Call → Owners → List Bool × Owners
unfolding call_owner
run_owners [] owners = ([], owners)
run_owners (c ∷ cs) owners =
    let (answer, owners') = call_owner c owners in
    let (answers, owners'') = run_owners cs owners' in (answer ∷ answers, owners'')

-- What the two maps of the PF say of a device.
abbrev pub Shows : PfDevice → String → Owner → Type 0
Shows p j Owner.absent =
    (lookup j p.available_devices ≡ none) × ((d : String) → held j d p.allocated_devices ≡ none)
Shows p j (Owner.nobody v) =
    (lookup j p.available_devices ≡ some v) × ((d : String) → held j d p.allocated_devices ≡ none)
Shows p j (Owner.claim c v) =
    (lookup j p.available_devices ≡ none)
    × ((d : String) → held j d p.allocated_devices ≡ (if str_eq c d then some v else none))

abbrev pub Refines : PfDevice → Owners → Type 0
Refines p owners = (j : String) → Shows p j (owners j)

-- What is not changed is shown as before.
Shows-same :
    (p q : PfDevice) (j : String) (o : Owner)
    → lookup j q.available_devices ≡ lookup j p.available_devices
    → ((d : String) → held j d q.allocated_devices ≡ held j d p.allocated_devices)
    → Shows p j o
    → Shows q j o
Shows-same p q j Owner.absent a h s = (a ∙ s.0, λ d. h d ∙ s.1 d)
Shows-same p q j (Owner.nobody v) a h s = (a ∙ s.0, λ d. h d ∙ s.1 d)
Shows-same p q j (Owner.claim c v) a h s = (a ∙ s.0, λ d. h d ∙ s.1 d)

-- One device has a new owner, and no other device is touched.
set_owner-Refines :
    (p q : PfDevice) (u : String) (o : Owner) (owners : Owners)
    → Refines p owners
    → Shows q u o
    → ((j : String) → u ≢ j → lookup j q.available_devices ≡ lookup j p.available_devices)
    → ((j d : String) → u ≢ j → held j d q.allocated_devices ≡ held j d p.allocated_devices)
    → Refines q (set_owner u o owners)
set_owner-Refines p q u o owners refines shown a h j = elim (str_eq-cases u j) [
  | inl (t, e) ↦ rw t (subst (λ (x : String). Shows q x o) e shown)
  | inr (t, n) ↦ rw t (Shows-same p q j (owners j) (a j n) (λ d. h j d n) (refines j))
]

pub take_vf-Refines :
    (c u : String) (v : VfDevice) (p : PfDevice) (owners : Owners)
    → uid v ≡ u
    → Shows p u (Owner.nobody v)
    → Refines p owners
    → Refines (take_vf c v p) (set_owner u (Owner.claim c v) owners)
take_vf-Refines c u v p owners same shown refines =
    set_owner-Refines p (take_vf c v p) u (Owner.claim c v) owners refines
      (
        ground (arith, available-take_vf c u v p, eq_iff (uid v) u, same),
        (λ d. ground (arith, held-take_vf c d u v p, eq_iff (uid v) u, same, shown.1 d)),
      )
      (λ j n. ground (arith, available-take_vf c j v p, eq_iff (uid v) j, same, n))
      (λ j d n. ground (arith, held-take_vf c d j v p, eq_iff (uid v) j, same, n))

pub give_back-Refines :
    (c u : String) (v : VfDevice) (p : PfDevice) (owners : Owners)
    → uid v ≡ u
    → Shows p u (Owner.claim c v)
    → Refines p owners
    → Refines (give_back c v p) (set_owner u (Owner.nobody v) owners)
give_back-Refines c u v p owners same shown refines =
    set_owner-Refines p (give_back c v p) u (Owner.nobody v) owners refines
      (
        ground (arith, available-give_back c u v p, eq_iff (uid v) u, same),
        (λ d. ground (arith, held-give_back c d u v p, eq_iff (uid v) u, same, shown.1 d)),
      )
      (λ j n. ground (arith, available-give_back c j v p, eq_iff (uid v) j, same, n))
      (λ j d n. ground (arith, held-give_back c d j v p, eq_iff (uid v) j, same, n))
