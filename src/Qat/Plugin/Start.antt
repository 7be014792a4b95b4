-- ===== src/Qat/Plugin/Start.antt =====
-- The PFs as `newDriver` of cmd/kubelet-qat-plugin/driver.go sets them up.
use intel_resource_drivers_f.Base.{
  ℕ, suc, ◌++◌, ◌≡◌, refl, inl, inr, Bool, String, List, [], ◌∷◌, Option, none, some, Dict, All,
  Result, ok, err, lookup, arith, subst, Option-cases, atoi,
}
use intel_resource_drivers_f.Qat.Services.{configure, none_service, string_to_services}
use intel_resource_drivers_f.Qat.Types.{PfDevice, Error, string_to_state}
use intel_resource_drivers_f.Qat.Alloc.Partition.{Keyed}
use intel_resource_drivers_f.Qat.Sysfs.{
  FilePath, Os, Host, lift, sysfs_driver_path, base, sync_config, get_services, read, qat_state,
  qat_services, num_vfs_file, total_vfs_file,
}
use intel_resource_drivers_f.Qat.Sysfs.Triple.{Outcome, Triple, bind, lift_lem}
use intel_resource_drivers_f.Qat.Sysfs.Frame.{read_lem}
use intel_resource_drivers_f.Qat.Scan.{
  enable_vfs, get_vfs, set_services, new, new_pf, new_pfs, fresh_pf,
}
use intel_resource_drivers_f.Qat.Scan.Idle.{
  IsIdle, Idle, Ready, get_vfs-IsIdle, enable_vfs_lem, set_services_lem,
}
use intel_resource_drivers_f.Qat.Plugin.{Env, enable_each, apply_defaults, start_pfs}

-- A PF with no VF allocated, and its VFs filed under their UIDs.
abbrev pub Unallocated : PfDevice → Type 0
Unallocated p = (p.allocated_devices ≡ []) × Keyed p.available_devices

Unallocated-IsIdle : (p : PfDevice) → Unallocated p → IsIdle p.services p.allow_reconfiguration p
Unallocated-IsIdle p u = record { unallocated = u.0; keyed = u.1; services = refl; allows = refl }

IsIdle-Unallocated : (s : ℕ) (a : Bool) (p : PfDevice) → IsIdle s a p → Unallocated p
IsIdle-Unallocated s a p i = (i.unallocated, i.keyed)

module _ {W : Type 0} (os : Os W) where
  abbrev U : Host W → Type 0
  U h = Unallocated h.pf

  either_way :
      {A : Type 0} (c s : ℕ) (a : Bool) (r : Result Error A × Host W)
      → Outcome (Ready os c a) (Idle os s a) r
      → U r.1
  either_way c s a (ok x, h) o = IsIdle-Unallocated c a h.pf o.0
  either_way c s a (err e, h) o = IsIdle-Unallocated s a h.pf o

  enable_vfs-Unallocated : (h : Host W) → U h → U (enable_vfs os h).1
  enable_vfs-Unallocated h u =
      let s = h.pf.services in
      let a = h.pf.allow_reconfiguration in
      either_way s s a (enable_vfs os h) ((enable_vfs_lem os s a).at h (Unallocated-IsIdle h.pf u))

  set_services-Unallocated : (srv : List ℕ) (h : Host W) → U h → U (set_services os srv h).1
  set_services-Unallocated srv h u =
      let s = h.pf.services in
      let a = h.pf.allow_reconfiguration in
      either_way (configure none_service srv) s a (set_services os srv h)
        ((set_services_lem os s a srv).at h (Unallocated-IsIdle h.pf u))

  get_services_lem : Triple U U U (get_services os)
  unfolding get_services
  get_services_lem =
      bind U U U U (read os qat_services) _ (read_lem os U qat_services)
        λ text. lift_lem U (string_to_services text) Error.unsupported_service

  sync_config_lem : Triple U U U (sync_config os)
  unfolding sync_config
  sync_config_lem = bind U U U U (read os qat_state) _ (read_lem os U qat_state) λ text.
      bind U U U U (lift (string_to_state text) Error.unknown_state) _
        (lift_lem U (string_to_state text) Error.unknown_state)
        λ state. bind U U U U (get_services os) _ get_services_lem λ services.
          bind U U U U (read os num_vfs_file) _ (read_lem os U num_vfs_file) λ num.
            bind U U U U (lift (atoi num) Error.not_a_number) _
              (lift_lem U (atoi num) Error.not_a_number)
              λ vfs. bind U U U U (read os total_vfs_file) _ (read_lem os U total_vfs_file) λ total.
                bind U U U U (lift (atoi total) Error.not_a_number) _
                  (lift_lem U (atoi total) Error.not_a_number) λ n. record { at = λ h u. u }

  new_pf-Unallocated :
      (self : ℕ) (path : FilePath) (w : W) (p : PfDevice)
      → new_pf os self path w ≡ some p
      → Unallocated p
  unfolding new_pf fresh_pf
  new_pf-Unallocated self path w p e = elim (Option-cases (os.eval_symlinks path w)) [
    | inl f ↦ absurd (ground (arith, e, f))
    | inr (t, f) ↦
        let h : Host W = record { self = self; pf = fresh_pf os (base t); world = w } in
        go (sync_config os h) (sync_config_lem.at h (refl, tt)) (ground (arith, e, f))
  ]
    where
      go :
          (r : Result Error (Unit {0}) × Host W)
          → Outcome U U r
          → (elim r.0 as (λ _. Option PfDevice) [ err _ ↦ none | ok _ ↦ some (get_vfs os r.1).pf ])
            ≡ some p
          → Unallocated p
      go (err x, h) o q = absurd (ground (arith, q))
      go (ok x, h) o q =
          let s = h.pf.services in
          let a = h.pf.allow_reconfiguration in
          let same : (get_vfs os h).pf ≡ p = ground (arith, q) in
          subst Unallocated same (
            IsIdle-Unallocated s a (get_vfs os h).pf
              (get_vfs-IsIdle os s a h (Unallocated-IsIdle h.pf o)))

  new_pfs-Unallocated :
      (self : ℕ) (paths : List FilePath) (w : W) → All Unallocated (new_pfs os self paths w)
  unfolding new_pfs
  new_pfs-Unallocated self [] w = tt
  new_pfs-Unallocated self (path ∷ paths) w = elim (Option-cases (new_pf os self path w)) [
    | inl e ↦ rw (e, new_pfs) (new_pfs-Unallocated self paths w)
    | inr (p, e) ↦
        rw (e, new_pfs) (new_pf-Unallocated self path w p e, new_pfs-Unallocated (suc self) paths w)
  ]

  new-Unallocated : (w : W) (ps : List PfDevice) → new os w ≡ some ps → All Unallocated ps
  unfolding new
  new-Unallocated w ps e =
      elim (Option-cases (os.glob (sysfs_driver_path os ++ ("4xxx" ∷ "????:??:??.?" ∷ [])) w)) [
        | inl f ↦ absurd (ground (arith, e, f))
        | inr (paths, f) ↦
            subst (All Unallocated) (ground (arith, e, f)) (new_pfs-Unallocated 0 paths w)
      ]

-- If there are PFs, none of them has a VF allocated.
abbrev AllUnallocated : Option (List PfDevice) → Type 0
AllUnallocated none = Unit
AllUnallocated (some ps) = All Unallocated ps

module _ {W : Type 0} (env : Env W) where
  enable_each-AllUnallocated :
      (self : ℕ) (ps : List PfDevice) (w : W)
      → All Unallocated ps
      → AllUnallocated (enable_each env self ps w).0
  unfolding enable_each
  enable_each-AllUnallocated self [] w u = tt
  enable_each-AllUnallocated self (p ∷ ps) w u =
      let h : Host W = record { self = self; pf = p; world = w } in
      go (enable_vfs env.os h) (enable_vfs-Unallocated env.os h u.0)
        (λ w'. enable_each-AllUnallocated (suc self) ps w' u.1)
    where
      more :
          (p' : PfDevice) (rest : Option (List PfDevice))
          → Unallocated p'
          → AllUnallocated rest
          → AllUnallocated (elim rest as (λ _. Option (List PfDevice)) [
            | none ↦ none
            | some ps' ↦ some (p' ∷ ps')
          ])
      more p' none v a = tt
      more p' (some ps') v a = (v, a)

      go :
          (r : Result Error (Unit {0}) × Host W)
          → Unallocated r.1.pf
          → ((w' : W) → AllUnallocated (enable_each env (suc self) ps w').0)
          → AllUnallocated
              (elim r.0 as (λ _. Option (List PfDevice) × W) [
                | err _ ↦ (none, r.1.world)
                | ok _ ↦ (
                  (elim (enable_each env (suc self) ps r.1.world).0
                      as (λ _. Option (List PfDevice)) [
                        | none ↦ none
                        | some ps' ↦ some (r.1.pf ∷ ps')
                      ]),
                  (enable_each env (suc self) ps r.1.world).1,
                )
              ]).0
      go (err e, h) v f = tt
      go (ok x, h) v f = more h.pf (enable_each env (suc self) ps h.world).0 v (f h.world)

  apply_defaults-Unallocated :
      (config : Dict String) (self : ℕ) (ps : List PfDevice) (w : W)
      → All Unallocated ps
      → All Unallocated (apply_defaults env config self ps w).0
  unfolding apply_defaults
  apply_defaults-Unallocated config self [] w u = tt
  apply_defaults-Unallocated config self (p ∷ ps) w u =
      let skip = apply_defaults-Unallocated config (suc self) ps w u.1 in
      elim (Option-cases (lookup p.device config)) [
        | inl e ↦ rw (e, apply_defaults) (u.0, skip)
        | inr (text, e) ↦ elim (Option-cases (string_to_services text)) [
          | inl f ↦ rw (e, f, apply_defaults) (u.0, skip)
          | inr (services, f) ↦
              let h : Host W = record { self = self; pf = p; world = w } in
              rw (e, f, apply_defaults)
                (
                  set_services-Unallocated env.os (services ∷ []) h u.0,
                  apply_defaults-Unallocated config (suc self) ps
                      (set_services env.os (services ∷ []) h).1.world u.1,
                )
        ]
      ]

  -- When `newDriver` finds the PFs, enables their VFs and applies the defaults without an error, no
  -- PF has a VF allocated, whatever claims were prepared before the start, and each available VF is
  -- filed under its UID.
  pub start_pfs-Unallocated :
      (config : Option (Dict String)) (w : W) (ps : List PfDevice)
      → (start_pfs env config w).0 ≡ some ps
      → All Unallocated ps
  unfolding start_pfs
  start_pfs-Unallocated config w ps e = elim (Option-cases (new env.os w)) [
    | inl f ↦ absurd (ground (arith, e, f))
    | inr (found, f) ↦
        go config (enable_each env 0 found w)
          (enable_each-AllUnallocated 0 found w (new-Unallocated env.os w found f))
          (ground (arith, e, f))
  ]
    where
      go :
          (config : Option (Dict String)) (r : Option (List PfDevice) × W)
          → AllUnallocated r.0
          → (elim r.0 as (λ _. Option (List PfDevice) × W) [
            | none ↦ (none, r.1)
            | some found ↦ elim config as (λ _. Option (List PfDevice) × W) [
              | none ↦ (some found, r.1)
              | some c ↦
                  (some (apply_defaults env c 0 found r.1).0, (apply_defaults env c 0 found r.1).1)
            ]
          ]).0
            ≡ some ps
          → All Unallocated ps
      go config (none, w') a q = absurd (ground (arith, q))
      go none (some found, w') a q =
          let same : found ≡ ps = ground (arith, q) in subst (All Unallocated) same a
      go (some c) (some found, w') a q =
          let same : (apply_defaults env c 0 found w').0 ≡ ps = ground (arith, q) in
          subst (All Unallocated) same (apply_defaults-Unallocated c 0 found w' a)
