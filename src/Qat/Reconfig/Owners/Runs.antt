-- ===== src/Qat/Reconfig/Owners/Runs.antt =====
-- Whole runs of `Allocate` and `free` of pkg/qat/device/device.go, on a PF without reconfiguration, against
-- the owners of its VFs.
use intel_resource_drivers_f.Base.{
  ◌≡◌, ◌≢◌, refl, sym, ap, subst, ◌∙◌, inl, inr, Bool, true, false, String, List, [], ◌∷◌, none,
  some, Result, ok, err, lookup, arith, eq_iff, All, str_eq-cases,
}
use intel_resource_drivers_f.Qat.Types.{VfDevice, PfDevice, Error}
use intel_resource_drivers_f.Qat.Sysfs.{Os, Host}
use intel_resource_drivers_f.Qat.Alloc.{allocate, take_vf, give_back, held, pick}
use intel_resource_drivers_f.Qat.Alloc.Partition.{
  IsPartitioned, allocate-IsPartitioned, give_back-IsPartitioned, Keyed-lookup,
}
use intel_resource_drivers_f.Qat.Reconfig.{reset, free_pf, free}
use intel_resource_drivers_f.Qat.Reconfig.Owners.{
  Owner, Owners, Call, IsNamed, take_owner, release_owner, call_owner, run_owners, Shows, Refines,
  take_vf-Refines, give_back-Refines,
}

abbrev succeeded {ℓ} : {A : Type ℓ} → Result Error A → Bool
succeeded (ok _) = true
succeeded (err _) = false

allocate-unavailable :
    (u c : String) (p : PfDevice)
    → u ≢ ""
    → c ≢ ""
    → lookup u p.available_devices ≡ none
    → allocate u c p ≡ (err (Error.no_such_device u), p)
unfolding allocate pick
allocate-unavailable u c p n m e = ground (arith, n, m, e, eq_iff u "", eq_iff c "")

allocate-available :
    (u c : String) (v : VfDevice) (p : PfDevice)
    → u ≢ ""
    → c ≢ ""
    → lookup u p.available_devices ≡ some v
    → allocate u c p ≡ (ok v, take_vf c v p)
unfolding allocate pick
allocate-available u c v p n m e = ground (arith, n, m, e, eq_iff u "", eq_iff c "")

module _ {W : Type 0} (os : Os W) where
  free-unheld :
      (u c : String) (h : Host W)
      → u ≢ ""
      → c ≢ ""
      → held u c h.pf.allocated_devices ≡ none
      → free os u c h ≡ (err Error.device_not_found, h)
  unfolding free free_pf
  free-unheld u c h n m e = ground (arith, n, m, e, eq_iff u "", eq_iff c "")

  free-held :
      (u c : String) (v : VfDevice) (h : Host W)
      → u ≢ ""
      → c ≢ ""
      → h.pf.allow_reconfiguration ≡ false
      → held u c h.pf.allocated_devices ≡ some v
      → free os u c h ≡ (ok false, record h { pf = give_back c v h.pf })
  unfolding free free_pf reset give_back
  free-held u c v h n m f e = ground (arith, n, m, f, e, eq_iff u "", eq_iff c "")

  unfoldable pub call : Call → Host W → Bool × Host W
  call (Call.take device requester) h =
      let (r, p) = allocate device requester h.pf in (succeeded r, record h { pf = p })
  call (Call.release device requester) h =
      let (r, h') = free os device requester h in (succeeded r, h')

  unfoldable pub run : List Call → Host W → List Bool × Host W
  unfolding call
  run [] h = ([], h)
  run (c ∷ cs) h =
      let (answer, h') = call c h in let (answers, h'') = run cs h' in (answer ∷ answers, h'')

  -- What is kept by each call.
  abbrev pub Good : Host W → Owners → Type 0
  Good h owners = IsPartitioned h.pf × (h.pf.allow_reconfiguration ≡ false) × Refines h.pf owners

  abbrev Same : Bool × Host W → Bool × Owners → Type 0
  Same (answer, h) (answer', owners) = (answer ≡ answer') × Good h owners

  take-Same :
      (u c : String) (h : Host W) (owners : Owners)
      → IsNamed (Call.take u c)
      → Good h owners
      → Same (call (Call.take u c) h) (take_owner u c owners)
  unfolding call take_owner take_vf
  take-Same u c h owners named good = go (owners u) refl (good.2 u)
    where
      refused :
          (o : Owner)
          → lookup u h.pf.available_devices ≡ none
          → Same (call (Call.take u c) h) (false, owners)
      refused o e = rw (call, allocate-unavailable u c h.pf named.0 named.1 e) (refl, good)

      go :
          (o : Owner)
          → owners u ≡ o
          → Shows h.pf u o
          → Same (call (Call.take u c) h) (take_owner u c owners)
      go Owner.absent e s = rw (e, take_owner) (refused Owner.absent s.0)
      go (Owner.claim d v) e s = rw (e, take_owner) (refused (Owner.claim d v) s.0)
      go (Owner.nobody v) e s =
          let same = Keyed-lookup h.pf.available_devices u v good.0.keyed s.0 in
          let taken = allocate-available u c v h.pf named.0 named.1 s.0 in
          let kept : IsPartitioned (take_vf c v h.pf) =
            subst (λ (r : Result Error VfDevice × PfDevice). IsPartitioned r.1) taken
              (allocate-IsPartitioned u c h.pf good.0) in
          rw (e, take_owner, call, taken)
            (refl, (kept, good.1, take_vf-Refines c u v h.pf owners same s good.2))

  release-Same :
      (u c : String) (h : Host W) (owners : Owners)
      → IsNamed (Call.release u c)
      → Good h owners
      → Same (call (Call.release u c) h) (release_owner u c owners)
  unfolding call release_owner give_back
  release-Same u c h owners named good = go (owners u) refl (good.2 u)
    where
      refused :
          held u c h.pf.allocated_devices ≡ none → Same (call (Call.release u c) h) (false, owners)
      refused e = rw (call, free-unheld u c h named.0 named.1 e) (refl, good)

      go :
          (o : Owner)
          → owners u ≡ o
          → Shows h.pf u o
          → Same (call (Call.release u c) h) (release_owner u c owners)
      go Owner.absent e s = rw (e, release_owner) (refused (s.1 c))
      go (Owner.nobody v) e s = rw (e, release_owner) (refused (s.1 c))
      go (Owner.claim d v) e s = elim (str_eq-cases d c) [
        | inr (t, n) ↦ rw (e, release_owner, t) (refused (s.1 c ∙ ground (arith, t)))
        | inl (t, q) ↦
            let holds : held u c h.pf.allocated_devices ≡ some v = s.1 c ∙ ground (arith, t) in
            let same = good.0.held_keyed c u v holds in
            let kept : IsPartitioned (give_back c v h.pf) =
              give_back-IsPartitioned c v h.pf good.0 (
                subst (λ (x : String). held x c h.pf.allocated_devices ≡ some v) (sym same)
                  holds) in
            let shown = subst (λ (x : String). Shows h.pf u (Owner.claim x v)) q s in
            rw (e, release_owner, t, call, free-held u c v h named.0 named.1 good.1 holds)
              (refl, (kept, good.1, give_back-Refines c u v h.pf owners same shown good.2))
      ]

  call-Same :
      (c : Call) (h : Host W) (owners : Owners)
      → IsNamed c
      → Good h owners
      → Same (call c h) (call_owner c owners)
  unfolding call_owner
  call-Same (Call.take u c) h owners named good = take-Same u c h owners named good
  call-Same (Call.release u c) h owners named good = release-Same u c h owners named good

  -- The specification gives each VF of a PF an owner: nobody, one claim, or no such VF. Let the PF
  -- be partitioned, so that each VF is filed under its UID, none is both available and held, and
  -- none is held by two claims, not allow reconfiguration, and show these owners in its two maps. In
  -- any run of `Allocate` and `free` calls that name a device and a claim, each call answers as the
  -- specification does (true where it returns no error), and after the run the PF is still
  -- partitioned, allows no reconfiguration and shows the owners that the specification has.
  pub run-Refines :
      (cs : List Call) (h : Host W) (owners : Owners)
      → All IsNamed cs
      → Good h owners
      → ((run cs h).0 ≡ (run_owners cs owners).0) × Good (run cs h).1 (run_owners cs owners).1
  unfolding run run_owners
  run-Refines [] h owners named good = (refl, good)
  run-Refines (c ∷ cs) h owners named good =
      let (answer, good') = call-Same c h owners named.0 good in
      let (answers, good'') = run-Refines cs (call c h).1 (call_owner c owners).1 named.1 good' in
      (
        ap (λ (b : Bool). b ∷ (run cs (call c h).1).0) answer
            ∙ ap (λ (bs : List Bool). (call_owner c owners).0 ∷ bs) answers,
        good'',
      )
