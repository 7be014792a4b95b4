-- ===== src/Qat/Reconfig/Service.antt =====
-- What a claim has after an allocation that reconfigured the PF.
use Prim.Native.String.append
use mathlib.Core.Bool.{false≢true}
use text.Mathlib.TextLemmas.{cons≢nil}
use intel_resource_drivers_f.Base.{
  ℕ, ◌≡◌, refl, sym, ◌∙◌, ◌≢◌, inl, inr, Bool, true, false, ◌||◌, not, String, [], ◌∷◌, none, some,
  arith, Result, ok, err, lookup, replace_all, if◌then◌else◌, eq_iff, eq_refl, ◌==◌,
}
use intel_resource_drivers_f.Qat.Services.{none_service, configure}
use intel_resource_drivers_f.Qat.Types.{VfDevice, PfDevice, Error, uid, device_uid}
use intel_resource_drivers_f.Qat.Sysfs.{Os, Host}
use intel_resource_drivers_f.Qat.Sysfs.Triple.{Outcome}
use intel_resource_drivers_f.Qat.Alloc.{held, allocate}
use intel_resource_drivers_f.Qat.Alloc.Partition.{IsPartitioned}
use intel_resource_drivers_f.Qat.Alloc.Contract.{Answers, Took, allocate-Answers}
use intel_resource_drivers_f.Qat.Scan.{set_services}
use intel_resource_drivers_f.Qat.Scan.Idle.{Idle, Ready}
use intel_resource_drivers_f.Qat.Reconfig.{
  allocate_from_configured, after_set_services, allocate_with_reconfiguration,
}
use intel_resource_drivers_f.Qat.Reconfig.Keeps.{
  empty_or_not, IsIdle-IsPartitioned, refused, set_services_answers,
}

-- No UID is empty.
pub uid-ne-empty : (v : VfDevice) → uid v ≢ ""
unfolding uid device_uid
uid-ne-empty v e = cons≢nil (sym (λ i. append.cons "q" "atvf-" rest i) ∙ e)
  where
    rest : String
    rest = replace_all b'.' "-" (replace_all b':' "-" v.vf_device)

pub record Reconfigured (v : VfDevice) (service : ℕ) (c : String) (p q : PfDevice) : Type 0 where
  pub was_none : p.services ≡ none_service
  pub was_allowed : p.allow_reconfiguration ≡ true
  pub was_unallocated : p.allocated_devices ≡ []
  pub services : q.services ≡ configure none_service (service ∷ [])
  pub holder : VfDevice
  pub holder_uid : uid holder ≡ uid v
  pub holds : held (uid v) c q.allocated_devices ≡ some holder
  pub no_longer_available : lookup (uid v) q.available_devices ≡ none

module _ {W : Type 0} (os : Os W) where
  from_configured_lem :
      (v : VfDevice) (c : String) (h : Host W)
      → IsPartitioned h.pf
      → (allocate_from_configured os v c h).0 ≡ true
      → (w : VfDevice) × Took c w h.pf (allocate_from_configured os v c h).1.pf × (uid w ≡ uid v)
  unfolding allocate_from_configured
  from_configured_lem v c h i t = go (allocate (uid v) c h.pf) (allocate-Answers (uid v) c h.pf i) t
    where
      go :
          (r : Result Error VfDevice × PfDevice)
          → Answers (uid v) c h.pf r
          → (elim r.0 as (λ _. Bool) [ ok _ ↦ true | err _ ↦ false ]) ≡ true
          → (w : VfDevice) × Took c w h.pf r.1 × (uid w ≡ uid v)
      go (ok w, q) a t = (w, a.2, a.1 (uid-ne-empty v))
      go (err e, q) a t = cc

  after_reconfiguration :
      (v : VfDevice) (service : ℕ) (c : String) (h : Host W) (r : Result Error (Unit {0}) × Host W)
      → h.pf.services ≡ none_service
      → h.pf.allow_reconfiguration ≡ true
      → h.pf.allocated_devices ≡ []
      → Outcome
          (Ready os (configure none_service (service ∷ [])) h.pf.allow_reconfiguration)
          (Idle os h.pf.services h.pf.allow_reconfiguration)
          r
      → (after_set_services os v c r).0 ≡ true
      → Reconfigured v service c h.pf (after_set_services os v c r).1.pf
  unfolding after_set_services
  after_reconfiguration v service c h (err e, k) s a u o t = absurd (false≢true t)
  after_reconfiguration v service c h (ok x, k) s a u o t =
      let (w, took, named) =
        from_configured_lem v c k (IsIdle-IsPartitioned _ h.pf.allow_reconfiguration k.pf o.0) t in
      record {
        was_none = s;
        was_allowed = a;
        was_unallocated = u;
        services = took.services ∙ o.0.services;
        holder = w;
        holder_uid = named;
        holds = ground (arith, took.allocated c (uid v), eq_refl c, eq_iff (uid w) (uid v), named);
        no_longer_available = ground (arith, took.available (uid v), eq_iff (uid w) (uid v), named);
      }

  -- Let the PF be partitioned, so that each VF is filed under its UID, none is both available and
  -- held, and none is held by two claims. If `AllocateWithReconfiguration` returns true, the PF had
  -- no service, allowed reconfiguration and had no VF allocated, and after it the PF has the
  -- requested service and the claim holds the VF of the requested UID, which is no longer available.
  pub with_reconfiguration_lem :
      (v : VfDevice) (service : ℕ) (c : String) (h : Host W)
      → IsPartitioned h.pf
      → (allocate_with_reconfiguration os v service c h).0 ≡ true
      → Reconfigured v service c h.pf (allocate_with_reconfiguration os v service c h).1.pf
  unfolding allocate_with_reconfiguration
  with_reconfiguration_lem v service c h i t =
      go (not (h.pf.services == none_service) || not h.pf.allow_reconfiguration) refl t
    where
      r : Result Error (Unit {0}) × Host W
      r = set_services os (service ∷ []) h

      go :
          (b : Bool)
          → (not (h.pf.services == none_service) || not h.pf.allow_reconfiguration) ≡ b
          → (if b then (false, h) else after_set_services os v c r).0 ≡ true
          → Reconfigured v service c h.pf
              (if b then (false, h) else after_set_services os v c r).1.pf
      go true e t = absurd (false≢true t)
      go false e t = elim (empty_or_not h.pf.allocated_devices) [
        | inl u ↦
            after_reconfiguration v service c h r (ground arith) (ground arith) u
              ((set_services_answers os (service ∷ []) h i.keyed).1 u) t
        | inr f ↦
            let x : (after_set_services os v c r).0 ≡ true = t in
            absurd (false≢true (rw (refused os (service ∷ []) h f) at x))
      ]
