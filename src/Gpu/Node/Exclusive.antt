-- ===== src/Gpu/Node/Exclusive.antt =====
-- No device is prepared for two claims, unless with admin access.
use intel_resource_drivers_f.Base.{
  ◌≡◌, refl, sym, subst, ◌∙◌, ◌≢◌, inl, inr, Bool, true, false, ◌&&◌, not, String, List, [], ◌∷◌,
  none, some, arith, lookup, insert, delete, any, any-All, All, All-lookup, Result, ok, err, eq_iff,
  lookup-insert, lookup-delete, Bool-cases, Option-cases, str_eq-cases,
}
use intel_resource_drivers_f.Kubelet.{AllocationResult, ResourceClaim}
use intel_resource_drivers_f.Gpu.Types.{DeviceInfo}
use intel_resource_drivers_f.Gpu.Claims.{PreparedDevice, ClaimPreparation, ClaimPreparations}
use intel_resource_drivers_f.Gpu.Binding.{Error, Outcome}
use intel_resource_drivers_f.Gpu.Node.{
  NodeState, Env, uses, is_device_used_exclusively_already, admin_of, new_prepared, prepare_driver,
  prepare_one, is_ours, with_device, prepare_loop, save, record_claim, prepare,
  prepare_resource_claim, unprepare_devices, unprepare, get_request_device_class_name,
}

-- Two different claims do not both use a device of a pool.
abbrev pub Exclusive : ClaimPreparations → Type 0
Exclusive m =
    (c d : String) (ds es : ClaimPreparation) (name pool : String)
    → c ≢ d
    → lookup c m ≡ some ds
    → lookup d m ≡ some es
    → any (uses name pool) ds ≡ true
    → any (uses name pool) es ≡ false

-- A device that the guard of `Prepare` let pass.
abbrev Checked : String → ClaimPreparations → PreparedDevice → Type 0
Checked uid m d =
    (name pool : String)
    → uses name pool d ≡ true
    → is_device_used_exclusively_already name pool uid m ≡ false

any-Checked :
    (uid : String) (m : ClaimPreparations) (ds : ClaimPreparation) (name pool : String)
    → All (Checked uid m) ds
    → any (uses name pool) ds ≡ true
    → is_device_used_exclusively_already name pool uid m ≡ false
any-Checked uid m [] name pool a h = absurd (ground arith)
any-Checked uid m (d ∷ ds) name pool a h = elim (Bool-cases (uses name pool d)) [
  | inl t ↦ a.0 name pool t
  | inr t ↦ any-Checked uid m ds name pool a.1 (rw t at h)
]

-- What the guard says of another claim.
unused_elsewhere :
    (name pool uid : String) (m : ClaimPreparations) (c : String) (es : ClaimPreparation)
    → is_device_used_exclusively_already name pool uid m ≡ false
    → c ≢ uid
    → lookup c m ≡ some es
    → any (uses name pool) es ≡ false
unfolding is_device_used_exclusively_already
unused_elsewhere name pool uid m c es h n e =
    ground (arith, All-lookup _ c m (any-All _ m h) e, eq_iff c uid)

insert-Exclusive :
    (uid : String) (ds : ClaimPreparation) (m : ClaimPreparations)
    → Exclusive m
    → All (Checked uid m) ds
    → Exclusive (insert uid ds m)
insert-Exclusive uid ds m x a c d cs es name pool n e f u = elim (str_eq-cases uid c) [
  | inl (t, p) ↦
      let cs_ds : cs ≡ ds = ground (arith, lookup-insert uid c ds m, t, e) in
      let other : lookup d m ≡ some es =
        ground (arith, lookup-insert uid d ds m, eq_iff uid d, p, n, f) in
      unused_elsewhere name pool uid m d es (any-Checked uid m ds name pool a (rw (← cs_ds) u))
        (λ q. n (sym p ∙ sym q)) other
  | inr (t, p) ↦
      let mine : lookup c m ≡ some cs = ground (arith, lookup-insert uid c ds m, t, e) in
      elim (str_eq-cases uid d) [
        | inl (v, q) ↦ elim (Bool-cases (any (uses name pool) es)) [
          | inr w ↦ w
          | inl w ↦
              let es_ds : es ≡ ds = ground (arith, lookup-insert uid d ds m, v, f) in
              absurd (
                ground (
                  arith,
                  unused_elsewhere name pool uid m c cs
                      (any-Checked uid m ds name pool a (rw (← es_ds) w)) (λ r. p (sym r)) mine,
                  u,
                ))
        ]
        | inr (v, q) ↦
            x c d cs es name pool n mine (ground (arith, lookup-insert uid d ds m, v, f)) u
      ]
]

delete-Exclusive : (uid : String) (m : ClaimPreparations) → Exclusive m → Exclusive (delete uid m)
delete-Exclusive uid m x c d cs es name pool n e f u =
    x c d cs es name pool n (ground (arith, lookup-delete uid c m, e))
      (ground (arith, lookup-delete uid d m, f)) u

module _ {W : Type 0} (env : Env W) where
  abbrev One :
      String → ClaimPreparations → Result Error PreparedDevice × Bool × NodeState W → Type 0
  One uid m (ok d, need, s) = (s.prepared ≡ m) × Checked uid m d
  One uid m (err e, need, s) = s.prepared ≡ m

  abbrev Many :
      String → ClaimPreparations → Result Error (List PreparedDevice) × Bool × NodeState W → Type 0
  Many uid m (ok ds, need, s) = (s.prepared ≡ m) × All (Checked uid m) ds
  Many uid m (err e, need, s) = s.prepared ≡ m

  guarded :
      (a : AllocationResult) (g : DeviceInfo) (uid : String) (m : ClaimPreparations)
      → (not (admin_of a) && is_device_used_exclusively_already a.device a.pool uid m) ≡ false
      → Checked uid m (new_prepared a g)
  unfolding new_prepared
  guarded a g uid m t name pool u = ground (arith, t, u, eq_iff a.device name, eq_iff a.pool pool)

  prepare_one-One :
      (claim : ResourceClaim) (a : AllocationResult) (need : Bool) (s : NodeState W)
      → One claim.uid s.prepared (prepare_one env claim a need s)
  unfolding prepare_one
  prepare_one-One claim a need s =
      elim (Bool-cases (
        not (admin_of a)
        && is_device_used_exclusively_already a.device a.pool claim.uid s.prepared)) [
          | inl t ↦ rw (t, prepare_one) refl
          | inr t ↦ elim (Option-cases (lookup a.device s.allocatable)) [
            | inl e ↦ rw (t, e, prepare_one) refl
            | inr (g, e) ↦
                rw (t, e, prepare_one)
                  (go g
                    (prepare_driver env (get_request_device_class_name a.request claim)
                      s.manage_binding g s.world)
                    t)
          ]
        ]
    where
      go :
          (g : DeviceInfo) (r : Outcome W)
          → (not (admin_of a)
              && is_device_used_exclusively_already a.device a.pool claim.uid s.prepared)
            ≡ false
          → One claim.uid s.prepared (
              let s' = record s { allocatable = insert a.device r.2 s.allocatable; world = r.3 } in
              elim r.0 as (λ _. Result Error PreparedDevice × Bool × NodeState W) [
                | some x ↦ (err x, r.1, s')
                | none ↦ (ok (new_prepared a r.2), r.1, s')
              ])
      go g (none, n, g', w) t = (refl, guarded a g' claim.uid s.prepared t)
      go g (some x, n, g', w) t = refl

  with_device-Many :
      (uid : String) (m : ClaimPreparations) (d : PreparedDevice)
      (r : Result Error (List PreparedDevice) × Bool × NodeState W)
      → Checked uid m d
      → Many uid m r
      → Many uid m (with_device env d r)
  unfolding with_device
  with_device-Many uid m d (ok ds, need, s) c h = (h.0, (c, h.1))
  with_device-Many uid m d (err e, need, s) c h = h

  prepare_loop-Many :
      (claim : ResourceClaim) (rs : List AllocationResult) (need : Bool) (s : NodeState W)
      (m : ClaimPreparations)
      → s.prepared ≡ m
      → Many claim.uid m (prepare_loop env claim rs need s)
  unfolding prepare_loop
  prepare_loop-Many claim [] need s m e = (e, tt)
  prepare_loop-Many claim (a ∷ rs) need s m e = elim (Bool-cases (is_ours env s a)) [
    | inr t ↦ rw (t, prepare_loop) (prepare_loop-Many claim rs need s m e)
    | inl t ↦
        rw (t, prepare_loop)
          (go (prepare_one env claim a need s)
            (subst (λ x. One claim.uid x (prepare_one env claim a need s)) e
              (prepare_one-One claim a need s))
            (λ n s' e'. prepare_loop-Many claim rs n s' m e'))
  ]
    where
      go :
          (r : Result Error PreparedDevice × Bool × NodeState W)
          → One claim.uid m r
          → ((n : Bool) (s' : NodeState W)
              → s'.prepared ≡ m
              → Many claim.uid m (prepare_loop env claim rs n s'))
          → Many claim.uid m
              (elim r.0 as (λ _. Result Error (List PreparedDevice) × Bool × NodeState W) [
                | err x ↦ (err x, r.1, r.2)
                | ok d ↦ with_device env d (prepare_loop env claim rs r.1 r.2)
              ])
      go (err x, n, s') o f = o
      go (ok d, n, s') o f = with_device-Many claim.uid m d _ o.1 (f n s' o.0)

  save-prepared : (s : NodeState W) → (save env s).1.prepared ≡ s.prepared
  unfolding save
  save-prepared s = refl

  record_claim-Exclusive :
      (uid : String) (m : ClaimPreparations)
      (r : Result Error (List PreparedDevice) × Bool × NodeState W)
      → Exclusive m
      → Many uid m r
      → Exclusive (record_claim env uid r).2.prepared
  unfolding record_claim
  record_claim-Exclusive uid m (err e, need, s) x h = rw h x
  record_claim-Exclusive uid m (ok ds, need, s) x h = rw (h.0) (insert-Exclusive uid ds m x h.1)

  prepare-Exclusive :
      (claim : ResourceClaim) (s : NodeState W)
      → Exclusive s.prepared
      → Exclusive (prepare env claim s).2.prepared
  unfolding prepare
  prepare-Exclusive claim s x = elim (Option-cases claim.allocation) [
    | inl e ↦ rw (e, prepare) x
    | inr (rs, e) ↦
        rw (e, prepare)
          (record_claim-Exclusive claim.uid s.prepared _ x
            (prepare_loop-Many claim rs false s s.prepared refl))
  ]

  -- If no device of a pool is prepared without admin access for two claims, this is so too after a
  -- claim is prepared, whether that succeeds or fails half way.
  pub prepare_resource_claim-Exclusive :
      (claim : ResourceClaim) (s : NodeState W)
      → Exclusive s.prepared
      → Exclusive (prepare_resource_claim env claim s).2.prepared
  unfolding prepare_resource_claim
  prepare_resource_claim-Exclusive claim s x = elim (Option-cases (lookup claim.uid s.prepared)) [
    | inl e ↦ rw (e, prepare_resource_claim) (prepare-Exclusive claim s x)
    | inr (ds, e) ↦ rw (e, prepare_resource_claim) x
  ]

  unprepare_devices-prepared :
      (ds : ClaimPreparation) (s : NodeState W)
      → (unprepare_devices env ds s).2.prepared ≡ s.prepared
  unfolding unprepare_devices
  unprepare_devices-prepared ds s = refl

  -- If no device of a pool is prepared without admin access for two claims, this is so too after a
  -- claim is unprepared, with or without an error.
  pub unprepare-Exclusive :
      (uid : String) (s : NodeState W)
      → Exclusive s.prepared
      → Exclusive (unprepare env uid s).2.prepared
  unfolding unprepare
  unprepare-Exclusive uid s x = elim (Option-cases (lookup uid s.prepared)) [
    | inl e ↦ rw (e, unprepare) x
    | inr (ds, e) ↦ elim (Bool-cases (unprepare_devices env ds s).0) [
      | inl t ↦ rw (e, t, unprepare) (delete-Exclusive uid _ x)
      | inr t ↦ rw (e, t, unprepare) x
    ]
  ]
