-- ===== src/Qat/Scan/Idle.antt =====
-- A PF with no VF allocated, through the actions that reconfigure it.
use intel_resource_drivers_f.Base.{
  ℕ, ◌≡◌, refl, sym, subst, ◌∙◌, inl, inr, Bool, false, String, List, [], ◌∷◌, arith, Result, ok,
  err, All-insert, has, if◌then◌else◌, length, ltb, Option-cases, Bool-cases,
}
use intel_resource_drivers_f.Qat.Services.{none_service, configure, services_string}
use intel_resource_drivers_f.Qat.Types.{
  State, VfDevice, VfDevices, AllocatedDevices, PfDevice, Error, uid, device_uid,
}
use intel_resource_drivers_f.Qat.Sysfs.{
  FilePath, Os, Host, base, file_of, read, write, down, update, enable_vfio, enable_writes,
  qat_services, num_vfs_file, total_vfs_file,
}
use intel_resource_drivers_f.Qat.Sysfs.Triple.{Outcome, Triple, bind, both_outcomes, Outcome-weaken}
use intel_resource_drivers_f.Qat.Sysfs.Frame.{read_lem, write_lem, up_lem, down_lem}
use intel_resource_drivers_f.Qat.Alloc.Partition.{Keyed}
use intel_resource_drivers_f.Qat.Scan.{
  update_allocated, new_vf, scan_vf, scan_vfs, get_vfs, enable_all, enable_available, rescan,
  enable_vfs, recover, write_services, apply_services, set_services,
}

-- No VF is allocated, each VF is under its UID, and the services and the flag are the given ones.
pub record IsIdle (s : ℕ) (a : Bool) (p : PfDevice) : Type 0 where
  pub unallocated : p.allocated_devices ≡ []
  pub keyed : Keyed p.available_devices
  pub services : p.services ≡ s
  pub allows : p.allow_reconfiguration ≡ a

none_allocated : (m : AllocatedDevices) → m ≡ [] → ltb 0 (length m) ≡ false
none_allocated m e = rw e

-- An outcome whose parts promise the same.
outcome :
    {W A : Type 0} (P : Host W → Type 0) (r : Result Error A) (h : Host W)
    → P h
    → Outcome P P (r, h)
outcome P (ok a) h p = p
outcome P (err e) h p = p

module _ {W : Type 0} (os : Os W) where
  uid-update : (v : VfDevice) (w : W) → uid (update os v w) ≡ uid v
  unfolding uid update
  uid-update v w = refl

  uid-enable_vfio : (v : VfDevice) (w : W) → uid (enable_vfio os v w).1 ≡ uid v
  unfolding enable_vfio
  uid-enable_vfio v w = ground (arith, uid-update v (enable_writes os v w).1)

  enable_all-Keyed : (m : VfDevices) (w : W) → Keyed m → Keyed (enable_all os m w).1
  unfolding enable_all
  enable_all-Keyed [] w k = tt
  enable_all-Keyed ((j, x) ∷ m) w k = elim (Option-cases (enable_vfio os x w).0) [
    | inl e ↦
        rw (e, enable_all)
          (uid-enable_vfio x w ∙ k.0, enable_all-Keyed m (enable_vfio os x w).2 k.1)
    | inr (_, e) ↦ rw (e, enable_all) (uid-enable_vfio x w ∙ k.0, k.1)
  ]

  module _ (s : ℕ) (a : Bool) where
    scan_vf-IsIdle :
        (self : ℕ) (w : W) (p : PfDevice) (d : String)
        → IsIdle s a p
        → IsIdle s a (scan_vf os self w p d)
    unfolding scan_vf update_allocated
    scan_vf-IsIdle self w p d i =
        rw (i.unallocated, scan_vf, update_allocated)
          (record {
            unallocated = i.unallocated;
            keyed =
                All-insert _ (uid (new_vf os self w d)) (new_vf os self w d) p.available_devices
                  refl i.keyed;
            services = i.services;
            allows = i.allows;
          })

    scan_vfs-IsIdle :
        (self : ℕ) (w : W) (p : PfDevice) (paths : List FilePath)
        → IsIdle s a p
        → IsIdle s a (scan_vfs os self w p paths)
    unfolding scan_vfs
    scan_vfs-IsIdle self w p [] i = i
    scan_vfs-IsIdle self w p (path ∷ paths) i = elim (Option-cases (os.eval_symlinks path w)) [
      | inl e ↦ rw (e, scan_vfs) (scan_vfs-IsIdle self w p paths i)
      | inr (vfpath, e) ↦ elim (Bool-cases (has (device_uid (base vfpath)) p.available_devices)) [
        | inl t ↦ rw (e, t, scan_vfs) i
        | inr t ↦
            rw (e, t, scan_vfs)
              (scan_vfs-IsIdle self w (scan_vf os self w p (base vfpath)) paths
                (scan_vf-IsIdle self w p (base vfpath) i))
      ]
    ]

    pub get_vfs-IsIdle : (h : Host W) → IsIdle s a h.pf → IsIdle s a (get_vfs os h).pf
    unfolding get_vfs
    get_vfs-IsIdle h i =
        elim (Option-cases (os.glob (file_of os h.pf.device ("virtfn*" ∷ [])) h.world)) [
          | inl e ↦ rw (e, get_vfs) i
          | inr (paths, e) ↦ rw (e, get_vfs) (scan_vfs-IsIdle h.self h.world h.pf paths i)
        ]

    enable_available_lem :
        Triple
          (λ h. IsIdle s a h.pf)
          (λ h. IsIdle s a h.pf)
          (λ h. IsIdle s a h.pf)
          (enable_available os)
    unfolding enable_available
    enable_available_lem = record {
      at = λ h i.
          outcome (λ h. IsIdle s a h.pf) (enable_all os h.pf.available_devices h.world).0 _
            (record {
              unallocated = i.unallocated;
              keyed = enable_all-Keyed h.pf.available_devices h.world i.keyed;
              services = i.services;
              allows = i.allows;
            });
    }

    closed : (p : PfDevice) (state : State) → IsIdle s a p → IsIdle s a (record p { state = state })
    closed p state i = record {
      unallocated = i.unallocated;
      keyed = i.keyed;
      services = i.services;
      allows = i.allows;
    }

    abbrev pub Idle : Host W → Type 0
    Idle h = IsIdle s a h.pf

    -- `EnableVFs` leaves the PF up, if it succeeds.
    pub enable_vfs_lem :
        Triple Idle (λ h. IsIdle s a h.pf × (h.pf.state ≡ State.up)) Idle (enable_vfs os)
    unfolding enable_vfs rescan
    enable_vfs_lem =
        bind Idle Idle _ Idle (read os total_vfs_file) _ (read_lem os Idle total_vfs_file)
          λ totalvfs.
            bind Idle Idle _ Idle (write os num_vfs_file totalvfs) _
              (write_lem os (IsIdle s a) num_vfs_file totalvfs)
              λ _.
                bind Idle Idle _ Idle (rescan os) _ (record { at = λ h i. get_vfs-IsIdle h i })
                  λ _.
                    bind Idle Idle _ Idle (enable_available os) _ enable_available_lem
                      λ _. up_lem os (IsIdle s a) closed

    abbrev pub Ready : Host W → Type 0
    Ready h = IsIdle s a h.pf × (h.pf.state ≡ State.up)

    recover_lem :
        (state : State) (e : Error) (h : Host W) → Idle h → Outcome Idle Idle (recover os state e h)
    unfolding recover
    recover_lem State.down e h i = i
    recover_lem State.up e h i =
        both_outcomes Idle (enable_vfs os h)
          (Outcome-weaken Ready Idle Idle (enable_vfs os h) (λ h r. r.0) (enable_vfs_lem.at h i))

    write_services_lem :
        (state : State) (config : ℕ) → Triple Idle Idle Idle (write_services os state config)
    unfolding write_services
    write_services_lem state config = record {
      at = λ h i.
          go state (write os qat_services (services_string config) h)
            ((write_lem os (IsIdle s a) qat_services (services_string config)).at h i);
    }
      where
        go :
            (state : State) (r : Result Error (Unit {0}) × Host W)
            → Outcome Idle Idle r
            → Outcome {A = Unit {0}} Idle Idle
                (elim r.0 [ ok _ ↦ (ok tt, r.1) | err e ↦ recover os state e r.1 ])
        go state (ok x, h) o = o
        go state (err e, h) o = recover_lem state e h o

  -- Without allocated VFs, `SetServices` leaves the PF up with the new services, or reports an error
  -- and leaves the services as they were.
  module _ (s : ℕ) (a : Bool) (config : ℕ) where
    apply_services_lem :
        (state : State)
        → Triple (Idle s a) (Ready config a) (Idle s a) (apply_services os state config)
    unfolding apply_services
    apply_services_lem state =
        bind (Idle s a) (Idle s a) _ (Idle s a) (down os) _ (down_lem os (IsIdle s a) (closed s a))
          λ _.
            bind (Idle s a) (Idle s a) _ (Idle s a) (write_services os state config) _
              (write_services_lem s a state config)
              λ _.
                bind (Idle s a) (Ready s a) _ (Idle s a) (enable_vfs os) _ (enable_vfs_lem s a) λ _.
                  record {
                    at = λ h r. (
                      record {
                        unallocated = r.0.unallocated;
                        keyed = r.0.keyed;
                        services = refl;
                        allows = r.0.allows;
                      },
                      r.1,
                    );
                  }

  pub set_services_lem :
      (s : ℕ) (a : Bool) (srv : List ℕ)
      → Triple (Idle s a) (Ready (configure none_service srv) a) (Idle s a) (set_services os srv)
  unfolding set_services
  set_services_lem s a srv = record {
    at = λ h i.
        subst
          (λ b. Outcome (Ready (configure none_service srv) a) (Idle s a) (
            if b
            then (err Error.devices_allocated, h)
            else apply_services os h.pf.state (configure none_service srv) h))
          (sym (none_allocated h.pf.allocated_devices i.unallocated))
          ((apply_services_lem s a (configure none_service srv) h.pf.state).at h i);
  }
