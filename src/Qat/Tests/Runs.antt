-- ===== src/Qat/Tests/Runs.antt =====
-- Two claims that want the one VF of a PF without reconfiguration.
use intel_resource_drivers_f.Base.{
  ◌≡◌, ◌≢◌, refl, inl, inr, true, false, String, List, [], ◌∷◌, All, lookup, arith, eq_iff, str_eq,
  if◌then◌else◌, str_eq-cases, replace_all,
}
use intel_resource_drivers_f.Qat.Types.{PfDevice, uid, device_uid}
use intel_resource_drivers_f.Qat.Sysfs.{Host}
use intel_resource_drivers_f.Qat.Services.{none_service}
use intel_resource_drivers_f.Qat.Alloc.{held}
use intel_resource_drivers_f.Qat.Alloc.Partition.{IsPartitioned}
use intel_resource_drivers_f.Qat.Reconfig.Keeps.{IsIdle-IsPartitioned}
use intel_resource_drivers_f.Qat.Reconfig.Owners.{
  Owner, Owners, Call, IsNamed, Refines, run_owners, take_owner, release_owner,
}
use intel_resource_drivers_f.Qat.Reconfig.Owners.Runs.{Good, run, run-Refines}
use intel_resource_drivers_f.Qat.Tests.{Sys, os, vf, pf, host, keyed}

abbrev fixed_pf : PfDevice
fixed_pf = record pf { allow_reconfiguration = false }

abbrev fixed : Host Sys
fixed = record host { pf = fixed_pf }

fixed-IsPartitioned : IsPartitioned fixed_pf
fixed-IsPartitioned =
    IsIdle-IsPartitioned none_service false fixed_pf
      (record { unallocated = refl; keyed = keyed; services = refl; allows = refl })

abbrev free_vf : Owners
free_vf = λ key. if str_eq (uid vf) key then Owner.nobody vf else Owner.absent

fixed-Refines : Refines fixed_pf free_vf
unfolding lookup held
fixed-Refines j = elim (str_eq-cases (uid vf) j) [
  | inl (t, q) ↦ rw (t, t) (refl, (λ d. refl))
  | inr (t, n) ↦ rw (t, t) (refl, (λ d. refl))
]

abbrev calls : List Call
calls =
    Call.take (uid vf) "a"
    ∷ Call.take (uid vf) "b"
    ∷ Call.release (uid vf) "a"
    ∷ Call.take (uid vf) "b"
    ∷ []

uid_named : uid vf ≢ ""
unfolding uid device_uid replace_all
uid_named e = absurd (ground (arith, (eq_iff (uid vf) "").1 e))

a_named : ◌≢◌ {A = String} "a" ""
a_named e = absurd (ground (arith, (eq_iff "a" "").1 e))

b_named : ◌≢◌ {A = String} "b" ""
b_named e = absurd (ground (arith, (eq_iff "b" "").1 e))

calls-IsNamed : All IsNamed calls
calls-IsNamed = (
  (uid_named, a_named),
  ((uid_named, b_named), ((uid_named, a_named), ((uid_named, b_named), tt))),
)

run-Refines_example :
    ((run os calls fixed).0 ≡ (run_owners calls free_vf).0)
    × Good os (run os calls fixed).1 (run_owners calls free_vf).1
run-Refines_example =
    run-Refines os calls fixed free_vf calls-IsNamed (fixed-IsPartitioned, refl, fixed-Refines)

second_waits : (run_owners calls free_vf).0 ≡ true ∷ false ∷ true ∷ true ∷ []
unfolding run_owners uid device_uid replace_all take_owner release_owner
second_waits = refl
