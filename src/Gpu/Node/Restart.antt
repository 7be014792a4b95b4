-- ===== src/Gpu/Node/Restart.antt =====
-- What the kubelet and a restarted driver see of `prepareResourceClaim` and `Unprepare` of
-- cmd/kubelet-gpu-plugin: the answers repeat, and the checkpoint file agrees with the state.
use intel_resource_drivers_f.Base.{
  ◌≡◌, refl, subst, sym, ◌≢◌, inl, inr, Bool, false, String, List, none, some, arith, lookup,
  insert, delete, Result, ok, err, eq_iff, lookup-delete, lookup-insert_self, lookup-delete_self,
  Bool-cases, Option-cases,
}
use intel_resource_drivers_f.Kubelet.{AllocationResult, ResourceClaim, Device}
use intel_resource_drivers_f.Gpu.Claims.{
  PreparedDevice, ClaimPreparation, FileError, prepare_result, write_prepared_claims,
}
use intel_resource_drivers_f.Gpu.Claims.Restart.{Lossless, Durable, ReadsAs, get_or_create-write}
use intel_resource_drivers_f.Gpu.Binding.{Error}
use intel_resource_drivers_f.Gpu.Node.{
  NodeState, Env, save, record_claim, prepare_loop, prepare, prepare_resource_claim,
  unprepare_devices, unprepare,
}

module _ {W : Type 0} (env : Env W) where
  -- The claim is answered the same again, with no change of the state.
  abbrev pub Repeats : ResourceClaim → Result Error (List Device) × Bool × NodeState W → Type 0
  Repeats claim (ok devices, need, s) = prepare_resource_claim env claim s ≡ (ok devices, false, s)
  Repeats claim (err e, need, s) = Unit

  already_prepared :
      (claim : ResourceClaim) (ds : ClaimPreparation) (s : NodeState W)
      → lookup claim.uid s.prepared ≡ some ds
      → prepare_resource_claim env claim s ≡ (ok (prepare_result ds), false, s)
  unfolding prepare_resource_claim
  already_prepared claim ds s e = rw (e, prepare_resource_claim) refl

  record_claim-Repeats :
      (claim : ResourceClaim) (r : Result Error (List PreparedDevice) × Bool × NodeState W)
      → Repeats claim (record_claim env claim.uid r)
  unfolding record_claim save
  record_claim-Repeats claim (err e, need, s) = tt
  record_claim-Repeats claim (ok ds, need, s) =
      elim (Option-cases
        (write_prepared_claims env.codec env.disk env.prepared_claims_file_path
          (insert claim.uid ds s.prepared) s.world).0) [
            | inl e ↦
                rw e (already_prepared claim ds _ (lookup-insert_self claim.uid ds s.prepared))
            | inr (x, e) ↦ rw e tt
          ]

  -- When the checkpoint cannot be written, `Prepare` ends with that error; and yet the next call for
  -- the claim answers its devices without an error, and changes nothing.
  pub record_claim-retry :
      (claim : ResourceClaim) (ds : List PreparedDevice) (need : Bool) (s : NodeState W)
      (x : FileError)
      → (write_prepared_claims env.codec env.disk env.prepared_claims_file_path
          (insert claim.uid ds s.prepared)
          s.world).0
        ≡ some x
      → ((record_claim env claim.uid (ok ds, need, s)).0 ≡ err Error.checkpoint_failed)
        × (prepare_resource_claim env claim (record_claim env claim.uid (ok ds, need, s)).2
            ≡ (ok (prepare_result ds), false, (record_claim env claim.uid (ok ds, need, s)).2))
  unfolding record_claim save
  record_claim-retry claim ds need s x e = (
    rw (e, record_claim, save) refl,
    already_prepared claim ds (record_claim env claim.uid (ok ds, need, s)).2
        (lookup-insert_self claim.uid ds s.prepared),
  )

  prepare_lem :
      (claim : ResourceClaim) (s : NodeState W) (rs : List AllocationResult)
      → claim.allocation ≡ some rs
      → prepare env claim s ≡ record_claim env claim.uid (prepare_loop env claim rs false s)
  unfolding prepare
  prepare_lem claim s rs f = simp (f, prepare)

  prepare-Repeats : (claim : ResourceClaim) (s : NodeState W) → Repeats claim (prepare env claim s)
  unfolding prepare
  prepare-Repeats claim s = elim (Option-cases claim.allocation) [
    | inl f ↦ rw (f, prepare) tt
    | inr (rs, f) ↦
        subst (Repeats claim) (sym (prepare_lem claim s rs f))
          (record_claim-Repeats claim (prepare_loop env claim rs false s))
  ]

  -- What `prepareResourceClaim` answers without an error, it answers again to the next call for the
  -- claim, which changes nothing and asks for no publication.
  pub prepare_resource_claim-Repeats :
      (claim : ResourceClaim) (s : NodeState W) → Repeats claim (prepare_resource_claim env claim s)
  unfolding prepare_resource_claim
  prepare_resource_claim-Repeats claim s = elim (Option-cases (lookup claim.uid s.prepared)) [
    | inr (ds, e) ↦
        subst (Repeats claim) (sym (already_prepared claim ds s e)) (already_prepared claim ds s e)
    | inl e ↦
        let new : prepare_resource_claim env claim s ≡ prepare env claim s =
          rw (e, prepare_resource_claim) refl in
        subst (Repeats claim) (sym new) (prepare-Repeats claim s)
  ]

  -- After `Unprepare` without an error, the claim is not prepared, and every other claim is prepared
  -- as it was.
  pub unprepare-lookup :
      (uid : String) (s : NodeState W)
      → (unprepare env uid s).0 ≡ none
      → (lookup uid (unprepare env uid s).2.prepared ≡ none)
        × ((other : String)
            → uid ≢ other
            → lookup other (unprepare env uid s).2.prepared ≡ lookup other s.prepared)
  unfolding unprepare unprepare_devices
  unprepare-lookup uid s h = elim (Option-cases (lookup uid s.prepared)) [
    | inl e ↦ rw (e, unprepare) (e, (λ other n. refl))
    | inr (ds, e) ↦ elim (Bool-cases (unprepare_devices env ds s).0) [
      | inr t ↦ absurd (ground (arith, h, e, t))
      | inl t ↦
          rw (e, t, unprepare)
            (
              lookup-delete_self uid s.prepared,
              (λ other n. ground (arith, lookup-delete uid other s.prepared, eq_iff uid other, n)),
            )
    ]
  ]

  -- A restarted driver reads the prepared claims that the state has, each one under its UID.
  abbrev pub Saved : NodeState W → Type 0
  Saved s = ReadsAs env.codec env.disk env.prepared_claims_file_path s.prepared s.world

  abbrev pub SavedIfOk : Result Error (List Device) × Bool × NodeState W → Type 0
  SavedIfOk (ok devices, need, s) = Saved s
  SavedIfOk (err e, need, s) = Unit

  module _ (lossless : Lossless env.codec) (durable : Durable env.disk) where
    save-Saved : (s : NodeState W) → (save env s).0 ≡ none → Saved (save env s).1
    unfolding save
    save-Saved s h =
        get_or_create-write env.codec env.disk env.prepared_claims_file_path lossless durable
          s.prepared s.world (ground (arith, h))

    record_claim-Saved :
        (uid : String) (r : Result Error (List PreparedDevice) × Bool × NodeState W)
        → SavedIfOk (record_claim env uid r)
    unfolding record_claim
    record_claim-Saved uid (err e, need, s) = tt
    record_claim-Saved uid (ok ds, need, s) =
        elim (Option-cases (save env (record s { prepared = insert uid ds s.prepared })).0) [
          | inl e ↦ rw e (save-Saved (record s { prepared = insert uid ds s.prepared }) e)
          | inr (x, e) ↦ rw e tt
        ]

    -- Let the encoder read back what it writes, up to the order of the claims, and the disk keep
    -- what was written. When `Prepare` succeeds, a driver that restarts reads from the checkpoint
    -- file the prepared claims of the state, each one under its UID and no others, and changes
    -- nothing.
    pub prepare-Saved : (claim : ResourceClaim) (s : NodeState W) → SavedIfOk (prepare env claim s)
    unfolding prepare
    prepare-Saved claim s = elim (Option-cases claim.allocation) [
      | inl f ↦ rw (f, prepare) tt
      | inr (rs, f) ↦
          subst SavedIfOk (sym (prepare_lem claim s rs f))
            (record_claim-Saved claim.uid (prepare_loop env claim rs false s))
    ]

    -- Let the encoder read back what it writes, up to the order of the claims, and the disk keep
    -- what was written. When `Unprepare` of a prepared claim succeeds, a driver that restarts reads
    -- from the checkpoint file the prepared claims of the state, each one under its UID and no
    -- others, and changes nothing.
    pub unprepare-Saved :
        (uid : String) (ds : ClaimPreparation) (s : NodeState W)
        → lookup uid s.prepared ≡ some ds
        → (unprepare env uid s).0 ≡ none
        → Saved (unprepare env uid s).2
    unfolding unprepare
    unprepare-Saved uid ds s e h = elim (Bool-cases (unprepare_devices env ds s).0) [
      | inr t ↦ absurd (ground (arith, h, e, t))
      | inl t ↦
          let s' = (unprepare_devices env ds s).2 in
          let cleared = record s' { prepared = delete uid s'.prepared } in
          let saved : (save env cleared).0 ≡ none = ground (arith, h, e, t) in
          rw (e, t, unprepare) (save-Saved cleared saved)
    ]
