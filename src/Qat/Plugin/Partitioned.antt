-- ===== src/Qat/Plugin/Partitioned.antt =====
-- Every method of cmd/kubelet-qat-plugin keeps each VF with one owner.
use intel_resource_drivers_f.Base.{
  ℕ, zero, suc, ◌≡◌, refl, subst, inl, inr, Bool, true, false, ◌&&◌, String, List, [], ◌∷◌, Option,
  none, some, All, arith, Result, ok, err, lookup, str_eq, Option-cases, Bool-cases,
}
use intel_resource_drivers_f.Kubelet.{AllocationResult, ResourceClaim, Device}
use intel_resource_drivers_f.Qat.Types.{
  VfDevice, VfDevices, PfDevice, uid, driver_name, Error as PfError,
}
use intel_resource_drivers_f.Qat.Services.{unset}
use intel_resource_drivers_f.Qat.Sysfs.{Host}
use intel_resource_drivers_f.Qat.Alloc.Partition.{IsPartitioned}
use intel_resource_drivers_f.Qat.Reconfig.{
  free, check_already_allocated, allocate_from_configured, allocate_with_reconfiguration,
}
use intel_resource_drivers_f.Qat.Reconfig.Keeps.{
  free-IsPartitioned, from_configured-IsPartitioned, with_reconfiguration-IsPartitioned,
}
use intel_resource_drivers_f.Qat.Plugin.{
  NodeState, Env, Error, pf_at, set_pf, on_pf, allocate_vf, free_all, prepare_one, prepare_loop,
  record_claim, prepare, new_device, prepare_resource_claim, drop_claim, free_named, unprepare_loop,
  unprepare,
}

pf_at-All :
    (i : ℕ) (ps : List PfDevice) (p : PfDevice)
    → All IsPartitioned ps
    → pf_at i ps ≡ some p
    → IsPartitioned p
unfolding pf_at
pf_at-All i [] p a e = absurd (ground (arith, e))
pf_at-All zero (q ∷ ps) p a e = subst IsPartitioned (ground (arith, e)) a.0
pf_at-All (suc i) (q ∷ ps) p a e = pf_at-All i ps p a.1 e

set_pf-All :
    (i : ℕ) (p : PfDevice) (ps : List PfDevice)
    → IsPartitioned p
    → All IsPartitioned ps
    → All IsPartitioned (set_pf i p ps)
unfolding set_pf
set_pf-All i p [] h a = tt
set_pf-All zero p (q ∷ ps) h a = (h, a.1)
set_pf-All (suc i) p (q ∷ ps) h a = (a.0, set_pf-All i p ps h a.1)

-- The VFs of each PF are partitioned among the claims and those that are available.
abbrev pub Partitioned : {W : Type 0} → NodeState W → Type 0
Partitioned s = All IsPartitioned s.pfs

on_pf-Partitioned :
    {W A : Type 0} (v : VfDevice) (f : Host W → A × Host W) (s : NodeState W)
    → ((h : Host W) → IsPartitioned h.pf → IsPartitioned (f h).1.pf)
    → Partitioned s
    → Partitioned (on_pf v f s).1
unfolding on_pf
on_pf-Partitioned v f s k a = elim (Option-cases (pf_at v.pfdevice s.pfs)) [
  | inl e ↦ rw (e, on_pf) a
  | inr (p, e) ↦
      rw (e, on_pf) (set_pf-All v.pfdevice _ s.pfs (k _ (pf_at-All v.pfdevice s.pfs p a e)) a)
]

module _ {W : Type 0} (env : Env W) where
  -- `Allocate` keeps the partition of a PF, by whichever way it allocates the VF.
  allocate_vf-IsPartitioned :
      (v : VfDevice) (service : ℕ) (c : String) (h : Host W)
      → IsPartitioned h.pf
      → IsPartitioned (allocate_vf env v service c h).1.pf
  unfolding allocate_vf
  allocate_vf-IsPartitioned v service c h i =
      let j = from_configured-IsPartitioned env.os v c h i in
      let k = with_reconfiguration-IsPartitioned env.os v service c _ j in
      elim (Bool-cases (check_already_allocated env.os v service c h)) [
        | inl t ↦ rw (t, allocate_vf) i
        | inr t ↦ elim (Bool-cases (allocate_from_configured env.os v c h).0) [
          | inl u ↦ rw (t, u, allocate_vf) j
          | inr u ↦
              elim (Bool-cases
                (allocate_with_reconfiguration env.os v service c
                  (allocate_from_configured env.os v c h).1).0) [
                    | inl w ↦ rw (t, u, w, allocate_vf) k
                    | inr w ↦ rw (t, u, w, allocate_vf) k
                  ]
        ]
      ]

  free_all-Partitioned :
      (c : String) (vfs : VfDevices) (s : NodeState W)
      → Partitioned s
      → Partitioned (free_all env c vfs s)
  unfolding free_all
  free_all-Partitioned c [] s a = a
  free_all-Partitioned c ((_, vf) ∷ vfs) s a =
      free_all-Partitioned c vfs _
        (on_pf-Partitioned vf (free env.os (uid vf) c) s (free-IsPartitioned env.os (uid vf) c) a)

  prepare_one-Partitioned :
      (c : String) (a : AllocationResult) (s : NodeState W)
      → Partitioned s
      → Partitioned (prepare_one env c a s).1
  unfolding prepare_one
  prepare_one-Partitioned c a s i = elim (Option-cases (lookup a.device s.allocatable)) [
    | inl e ↦ rw (e, prepare_one) i
    | inr (vf, e) ↦
        rw (e, prepare_one)
          (go vf (on_pf vf (allocate_vf env vf unset c) s) (
            on_pf-Partitioned vf (allocate_vf env vf unset c) s
              (allocate_vf-IsPartitioned vf unset c) i))
  ]
    where
      go :
          (vf : VfDevice) (r : Option (Option Bool) × NodeState W)
          → Partitioned r.1
          → Partitioned
              (elim r.0 as (λ _. Result Error Device × NodeState W) [
                | none ↦ (err Error.nil_pointer, r.1)
                | some none ↦ (err Error.not_allocated, free_all env c r.1.allocatable r.1)
                | some (some _) ↦ (ok (new_device a vf), r.1)
              ]).1
      go vf (none, s') j = j
      go vf (some none, s') j = free_all-Partitioned c s'.allocatable s' j
      go vf (some (some b), s') j = j

  prepare_loop-Partitioned :
      (c : String) (rs : List AllocationResult) (s : NodeState W)
      → Partitioned s
      → Partitioned (prepare_loop env c rs s).1
  unfolding prepare_loop
  prepare_loop-Partitioned c [] s i = i
  prepare_loop-Partitioned c (a ∷ rs) s i =
      elim (Bool-cases (str_eq a.driver driver_name && str_eq a.pool s.node_name)) [
        | inr t ↦ rw (t, prepare_loop) (prepare_loop-Partitioned c rs s i)
        | inl t ↦
            rw (t, prepare_loop)
              (go (prepare_one env c a s) (prepare_one-Partitioned c a s i)
                (λ s' j. prepare_loop-Partitioned c rs s' j))
      ]
    where
      go :
          (r : Result Error Device × NodeState W)
          → Partitioned r.1
          → ((s' : NodeState W) → Partitioned s' → Partitioned (prepare_loop env c rs s').1)
          → Partitioned
              (elim r.0 as (λ _. Result Error (List Device) × NodeState W) [
                | err e ↦ (err e, r.1)
                | ok d ↦ (
                  (elim (prepare_loop env c rs r.1).0 as (λ _. Result Error (List Device)) [
                    | err e ↦ err e
                    | ok ds ↦ ok (d ∷ ds)
                  ]),
                  (prepare_loop env c rs r.1).1,
                )
              ]).1
      go (err e, s') j f = j
      go (ok d, s') j f = f s' j

  record_claim-pfs :
      (c : String) (ds : List Device) (s : NodeState W) → (record_claim env c ds s).1.pfs ≡ s.pfs
  unfolding record_claim
  record_claim-pfs c ds s = refl

  prepare-Partitioned :
      (claim : ResourceClaim) (s : NodeState W)
      → Partitioned s
      → Partitioned (prepare env claim s).1
  unfolding prepare record_claim
  prepare-Partitioned claim s i = elim (Option-cases claim.allocation) [
    | inl e ↦ rw (e, prepare) i
    | inr (rs, e) ↦
        rw (e, prepare)
          (go (prepare_loop env claim.uid rs s) (prepare_loop-Partitioned claim.uid rs s i))
  ]
    where
      go :
          (r : Result Error (List Device) × NodeState W)
          → Partitioned r.1
          → Partitioned
              (elim r.0 as (λ _. Result Error (List Device) × NodeState W) [
                | err e ↦ (err e, r.1)
                | ok ds ↦ record_claim env claim.uid ds r.1
              ]).1
      go (err e, s') j = j
      go (ok ds, s') j = j

  -- If every PF is partitioned, so that each VF is filed under its UID, none is both available and
  -- held, and none is held by two claims, every PF is so too after a claim is prepared, also when
  -- that fails and the VFs that it had allocated are freed.
  pub prepare_resource_claim-Partitioned :
      (claim : ResourceClaim) (s : NodeState W)
      → Partitioned s
      → Partitioned (prepare_resource_claim env claim s).1
  unfolding prepare_resource_claim
  prepare_resource_claim-Partitioned claim s i = elim (Option-cases (lookup claim.uid s.prepared)) [
    | inl e ↦ rw (e, prepare_resource_claim) (prepare-Partitioned claim s i)
    | inr (ds, e) ↦ rw (e, prepare_resource_claim) i
  ]

  free_named-Partitioned :
      (name c : String) (s : NodeState W) → Partitioned s → Partitioned (free_named env name c s).1
  unfolding free_named
  free_named-Partitioned name c s i = elim (Option-cases (lookup name s.allocatable)) [
    | inl e ↦ rw (e, free_named) i
    | inr (vf, e) ↦
        rw (e, free_named)
          (go (on_pf vf (free env.os (uid vf) c) s) (
            on_pf-Partitioned vf (free env.os (uid vf) c) s (free-IsPartitioned env.os (uid vf) c)
              i))
  ]
    where
      go :
          (r : Option (Result PfError Bool) × NodeState W)
          → Partitioned r.1
          → Partitioned
              (elim r.0 as (λ _. Result Error Bool × NodeState W) [
                | none ↦ (err Error.nil_pointer, r.1)
                | some (err _) ↦ (ok false, r.1)
                | some (ok updated) ↦ (ok updated, r.1)
              ]).1
      go (none, s') j = j
      go (some (err e), s') j = j
      go (some (ok b), s') j = j

  unprepare_loop-Partitioned :
      (c : String) (ds : List Device) (s : NodeState W)
      → Partitioned s
      → Partitioned (unprepare_loop env c ds s).1
  unfolding unprepare_loop drop_claim
  unprepare_loop-Partitioned c [] s i = i
  unprepare_loop-Partitioned c (d ∷ ds) s i =
      let s1 = (drop_claim env c s).1 in
      elim (Bool-cases (drop_claim env c s).0) [
        | inr t ↦ rw (t, unprepare_loop) i
        | inl t ↦
            rw (t, unprepare_loop)
              (go (free_named env d.device_name c s1) (free_named-Partitioned d.device_name c s1 i)
                (λ s' j. unprepare_loop-Partitioned c ds s' j))
      ]
    where
      go :
          (r : Result Error Bool × NodeState W)
          → Partitioned r.1
          → ((s' : NodeState W) → Partitioned s' → Partitioned (unprepare_loop env c ds s').1)
          → Partitioned
              (elim r.0 as (λ _. Result Error Bool × NodeState W) [
                | err e ↦ (err e, r.1)
                | ok true ↦ (ok true, r.1)
                | ok false ↦ unprepare_loop env c ds r.1
              ]).1
      go (err e, s') j f = j
      go (ok true, s') j f = j
      go (ok false, s') j f = f s' j

  -- If every PF is partitioned, so that each VF is filed under its UID, none is both available and
  -- held, and none is held by two claims, every PF is so too after a claim is unprepared, wherever
  -- that ends.
  pub unprepare-Partitioned :
      (c : String) (s : NodeState W) → Partitioned s → Partitioned (unprepare env c s).1
  unfolding unprepare
  unprepare-Partitioned c s i = unprepare_loop-Partitioned c _ s i
