-- ===== src/Qat/Alloc/Contract.antt =====
-- What `Allocate` promises, device by device, and the way back.
use intel_resource_drivers_f.Base.{
  ◌≡◌, refl, ◌≢◌, inl, inr, ◌&&◌, String, none, some, arith, Result, ok, err, lookup, if◌then◌else◌,
  str_eq, eq_iff, str_eq-cases, Option-cases,
}
use intel_resource_drivers_f.Qat.Types.{VfDevice, PfDevice, Error, uid}
use intel_resource_drivers_f.Qat.Alloc.{pick, take_vf, give_back, held, allocate}
use intel_resource_drivers_f.Qat.Alloc.Maps.{
  held-take_vf, held-give_back, available-take_vf, available-give_back,
}
use intel_resource_drivers_f.Qat.Alloc.Partition.{IsPartitioned, pick-available, Keyed-lookup}

-- The effect of an allocation of `v` to the claim `c`, as a client sees it.
pub record Took (c : String) (v : VfDevice) (p q : PfDevice) : Type 0 where
  pub was_available : lookup (uid v) p.available_devices ≡ some v
  pub available :
      (j : String)
      → lookup j q.available_devices
        ≡ (if str_eq (uid v) j then none else lookup j p.available_devices)
  pub allocated :
      (d j : String)
      → held j d q.allocated_devices
        ≡ (if str_eq c d && str_eq (uid v) j then some v else held j d p.allocated_devices)
  pub services : q.services ≡ p.services

abbrev pub Answers : String → String → PfDevice → Result Error VfDevice × PfDevice → Type 0
Answers u c p (err e, q) = (q ≡ p) × (u ≢ "" → c ≢ "" → lookup u p.available_devices ≡ none)
Answers u c p (ok v, q) = (c ≢ "") × (u ≢ "" → uid v ≡ u) × Took c v p q

take_vf-Took :
    (c : String) (v : VfDevice) (p : PfDevice)
    → lookup (uid v) p.available_devices ≡ some v
    → Took c v p (take_vf c v p)
unfolding take_vf
take_vf-Took c v p a = record {
  was_available = a;
  available = λ j. available-take_vf c j v p;
  allocated = λ d j. ground (arith, held-take_vf c d j v p);
  services = refl;
}

pick_refuses :
    (u : String) (p : PfDevice) (e : Error)
    → u ≢ ""
    → pick u p.available_devices ≡ err e
    → lookup u p.available_devices ≡ none
unfolding pick
pick_refuses u p e n x = ground (arith, eq_iff u "")

pick_named :
    (u : String) (p : PfDevice) (v : VfDevice)
    → IsPartitioned p
    → u ≢ ""
    → pick u p.available_devices ≡ ok v
    → uid v ≡ u
unfolding pick
pick_named u p v h n x = ground (arith, eq_iff u "", Keyed-lookup p.available_devices u v h.keyed)

-- Let the PF be partitioned, so that each VF is filed under its UID, none is both available and
-- held, and none is held by two claims. `Allocate` refuses and changes nothing, for a named device
-- and a named claim only if the device is not available; or it moves one available VF, the named one
-- if one is named, to the claim, which is named then, and changes nothing else that a client can
-- look up.
pub allocate-Answers :
    (u c : String) (p : PfDevice) → IsPartitioned p → Answers u c p (allocate u c p)
unfolding allocate
allocate-Answers u c p h = elim (str_eq-cases c "") [
  | inl (t, s) ↦ rw (t, allocate) (refl, λ n m. absurd (m s))
  | inr (t, m) ↦ rw (t, allocate) (go (pick u p.available_devices) refl m)
]
  where
    go :
        (r : Result Error VfDevice)
        → pick u p.available_devices ≡ r
        → c ≢ ""
        → Answers u c p (elim r [ err e ↦ (err e, p) | ok vf ↦ (ok vf, take_vf c vf p) ])
    go (err e) x m = (refl, λ n _. pick_refuses u p e n x)
    go (ok v) x m =
        (m, (λ n. pick_named u p v h n x), take_vf-Took c v p (pick-available u p v h x))

-- Let the PF be partitioned and the VF available. To allocate it to a claim and give it back leaves
-- each look-up of an available VF, and of a VF that a claim holds, as it was.
pub give_back-take_vf :
    (c : String) (v : VfDevice) (p : PfDevice)
    → IsPartitioned p
    → lookup (uid v) p.available_devices ≡ some v
    → ((j : String)
        → lookup j (give_back c v (take_vf c v p)).available_devices ≡ lookup j p.available_devices)
      × ((d j : String)
          → held j d (give_back c v (take_vf c v p)).allocated_devices
            ≡ held j d p.allocated_devices)
give_back-take_vf c v p h a = (
  (λ j. ground (
    arith,
    available-give_back c j v (take_vf c v p),
    available-take_vf c j v p,
    eq_iff (uid v) j,
  )),
  (λ d j. elim (Option-cases (held j d p.allocated_devices)) [
    | inl e ↦
        ground
          (arith, held-give_back c d j v (take_vf c v p), held-take_vf c d j v p, eq_iff (uid v) j)
    | inr (w, e) ↦ ground (
      arith,
      held-give_back c d j v (take_vf c v p),
      held-take_vf c d j v p,
      h.apart d j w,
      eq_iff (uid v) j,
    )
  ]),
)
