-- ===== src/Qat/Alloc/Partition.antt =====
-- Every VF of a PF is available, or allocated to one claim, and is filed under its own UID.
use intel_resource_drivers_f.Base.{
  ◌≡◌, refl, inl, inr, String, [], ◌∷◌, none, some, arith, ok, All, All-insert, All-delete,
  All-lookup, lookup, eq_iff, str_eq-cases,
}
use intel_resource_drivers_f.Qat.Types.{VfDevice, VfDevices, PfDevice, uid}
use intel_resource_drivers_f.Qat.Alloc.{first_vf, pick, take_vf, give_back, held, allocate}
use intel_resource_drivers_f.Qat.Alloc.Maps.{
  held-take_vf, held-give_back, available-take_vf, available-give_back, allocate_cases,
}

-- Each device is filed under its UID.
abbrev pub Keyed : VfDevices → Type 0
Keyed = All (λ (e : String × VfDevice). uid e.1 ≡ e.0)

pub record IsPartitioned (p : PfDevice) : Type 0 where
  pub keyed : Keyed p.available_devices
  pub held_keyed : (c u : String) (v : VfDevice) → held u c p.allocated_devices ≡ some v → uid v ≡ u
  pub apart :
      (c u : String) (v : VfDevice)
      → held u c p.allocated_devices ≡ some v
      → lookup u p.available_devices ≡ none
  pub one_owner :
      (c d u : String) (v w : VfDevice)
      → held u c p.allocated_devices ≡ some v
      → held u d p.allocated_devices ≡ some w
      → c ≡ d

module _ (c : String) (x : VfDevice) (p : PfDevice) (h : IsPartitioned p) where
  take_vf-IsPartitioned :
      lookup (uid x) p.available_devices ≡ some x → IsPartitioned (take_vf c x p)
  unfolding take_vf
  take_vf-IsPartitioned a = record {
    keyed = All-delete _ (uid x) p.available_devices h.keyed;
    held_keyed =
        λ d u v e. ground (arith, held-take_vf c d u x p, h.held_keyed d u v, eq_iff (uid x) u);
    apart = λ d u v e.
        ground (
          arith,
          held-take_vf c d u x p,
          available-take_vf c u x p,
          h.apart d u v,
          eq_iff (uid x) u,
        );
    one_owner = λ d e u v w m n. ground (
      arith,
      held-take_vf c d u x p,
      held-take_vf c e u x p,
      h.one_owner d e u v w,
      h.apart d u v,
      h.apart e u w,
      eq_iff (uid x) u,
      eq_iff c d,
      eq_iff c e,
    );
  }

  pub give_back-IsPartitioned :
      held (uid x) c p.allocated_devices ≡ some x → IsPartitioned (give_back c x p)
  unfolding give_back
  give_back-IsPartitioned a = record {
    keyed = All-insert _ (uid x) x p.available_devices refl h.keyed;
    held_keyed = λ d u v e. ground (arith, held-give_back c d u x p, h.held_keyed d u v);
    apart = λ d u v e. ground (
      arith,
      held-give_back c d u x p,
      available-give_back c u x p,
      h.apart d u v,
      h.one_owner c d u x v,
      eq_iff (uid x) u,
      eq_iff c d,
    );
    one_owner = λ d e u v w m n.
        ground (arith, held-give_back c d u x p, held-give_back c e u x p, h.one_owner d e u v w);
  }

-- What is picked is filed under its UID.
first_vf-available :
    (m : VfDevices) (v : VfDevice) → Keyed m → first_vf m ≡ some v → lookup (uid v) m ≡ some v
unfolding first_vf lookup
first_vf-available [] v k e = absurd (ground arith)
first_vf-available ((u, w) ∷ m) v k e = ground (arith, eq_iff u (uid v))

pub Keyed-lookup :
    (m : VfDevices) (u : String) (v : VfDevice) → Keyed m → lookup u m ≡ some v → uid v ≡ u
Keyed-lookup m u v k e = All-lookup (λ (e : String × VfDevice). uid e.1 ≡ e.0) u m k e

pub pick-available :
    (u : String) (p : PfDevice) (v : VfDevice)
    → IsPartitioned p
    → pick u p.available_devices ≡ ok v
    → lookup (uid v) p.available_devices ≡ some v
unfolding pick
pick-available u p v h e = elim (str_eq-cases u "") [
  | inl (t, _) ↦ first_vf-available p.available_devices v h.keyed (ground (arith, t))
  | inr (t, n) ↦ ground (arith, t, Keyed-lookup p.available_devices u v h.keyed)
]

-- If a PF is partitioned, so that each VF is filed under its UID, none is both available and held,
-- and none is held by two claims, it is so too after `Allocate`, whether that succeeds or not.
pub allocate-IsPartitioned :
    (u c : String) (p : PfDevice) → IsPartitioned p → IsPartitioned (allocate u c p).1
allocate-IsPartitioned u c p h =
    allocate_cases (λ r. IsPartitioned r.1) u c p (λ e. h)
      (λ v n e. take_vf-IsPartitioned c v p h (pick-available u p v h e))
