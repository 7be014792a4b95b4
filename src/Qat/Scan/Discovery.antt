-- ===== src/Qat/Scan/Discovery.antt =====
-- Which VFs the scan of a PF finds.
use mathlib.Core.Path.{subst₂}
use intel_resource_drivers_f.Base.{
  ℕ, ◌≡◌, refl, sym, ◌≢◌, inl, inr, true, false, String, List, [], ◌∷◌, ◌++◌, none, some, arith,
  All, has, insert, if◌then◌else◌, str_eq, eq_iff, eq_refl, lookup-insert, Option-cases, Bool-cases,
}
use intel_resource_drivers_f.Qat.Types.{VfDevice, VfDevices, PfDevice, uid, device_uid}
use intel_resource_drivers_f.Qat.Sysfs.{FilePath, Os, base, update}
use intel_resource_drivers_f.Qat.Scan.{update_allocated, new_vf, scan_vf, scan_vfs}

module _ {W : Type 0} (os : Os W) where
  -- The names of the VFs behind the paths, without the paths that are no symlinks.
  abbrev pub vf_names : W → List FilePath → List String
  vf_names w [] = []
  vf_names w (path ∷ paths) = elim (os.eval_symlinks path w) [
    | none ↦ vf_names w paths
    | some vfpath ↦ base vfpath ∷ vf_names w paths
  ]

  uid-new_vf : (self : ℕ) (w : W) (d : String) → uid (new_vf os self w d) ≡ device_uid d
  unfolding uid new_vf update
  uid-new_vf self w d = refl

  has-insert :
      (u d : String) (v : VfDevice) (m : VfDevices)
      → has u (insert d v m) ≡ (if str_eq d u then true else has u m)
  has-insert u d v m = ground (arith, lookup-insert d u v m)

  -- A VF that is available stays so.
  has-scan_vf :
      (self : ℕ) (w : W) (p : PfDevice) (d u : String)
      → has u p.available_devices ≡ true
      → has u (scan_vf os self w p d).available_devices ≡ true
  unfolding scan_vf
  has-scan_vf self w p d u h =
      ground
        (arith, has-insert u (uid (new_vf os self w d)) (new_vf os self w d) p.available_devices)

  has-scan_vfs :
      (self : ℕ) (w : W) (p : PfDevice) (paths : List FilePath) (u : String)
      → has u p.available_devices ≡ true
      → has u (scan_vfs os self w p paths).available_devices ≡ true
  unfolding scan_vfs
  has-scan_vfs self w p [] u h = h
  has-scan_vfs self w p (path ∷ paths) u h = elim (Option-cases (os.eval_symlinks path w)) [
    | inl e ↦ rw (e, scan_vfs) (has-scan_vfs self w p paths u h)
    | inr (q, e) ↦ elim (Bool-cases (has (device_uid (base q)) p.available_devices)) [
      | inl t ↦ rw (e, t, scan_vfs) h
      | inr t ↦
          rw (e, t, scan_vfs)
            (has-scan_vfs self w (scan_vf os self w p (base q)) paths u
              (has-scan_vf self w p (base q) u h))
    ]
  ]

  -- At a path that leads to a VF which is available already, the loop of `getVFs` ends: the paths
  -- behind it do not matter.
  pub scan_vfs-append :
      (self : ℕ) (w : W) (p : PfDevice) (xs ys : List FilePath) (path known : FilePath)
      → os.eval_symlinks path w ≡ some known
      → has (device_uid (base known)) p.available_devices ≡ true
      → scan_vfs os self w p (xs ++ (path ∷ ys)) ≡ scan_vfs os self w p xs
  unfolding scan_vfs
  scan_vfs-append self w p [] ys path known e h = rw (e, h, scan_vfs)
  scan_vfs-append self w p (x ∷ xs) ys path known e h = elim (Option-cases (os.eval_symlinks x w)) [
    | inl f ↦ rw (f, scan_vfs) (scan_vfs-append self w p xs ys path known e h)
    | inr (q, f) ↦ elim (Bool-cases (has (device_uid (base q)) p.available_devices)) [
      | inl t ↦ rw (f, t, scan_vfs)
      | inr t ↦
          rw (f, t, scan_vfs)
            (scan_vfs-append self w (scan_vf os self w p (base q)) xs ys path known e
              (has-scan_vf self w p (base q) (device_uid (base known)) h))
    ]
  ]

  -- The VFs have distinct UIDs, and none of them is available.
  abbrev pub Apart : VfDevices → List String → Type 0
  Apart m [] = Unit
  Apart m (d ∷ ds) =
      (has (device_uid d) m ≡ false) × All (λ k. device_uid d ≢ device_uid k) ds × Apart m ds

  scan_vf-unallocated :
      (self : ℕ) (w : W) (p : PfDevice) (d : String)
      → p.allocated_devices ≡ []
      → ((scan_vf os self w p d).allocated_devices ≡ [])
        × ((u : String)
            → has u (scan_vf os self w p d).available_devices
              ≡ (if str_eq (device_uid d) u then true else has u p.available_devices))
  unfolding scan_vf update_allocated uid new_vf update
  scan_vf-unallocated self w p d e =
      rw (e, scan_vf, update_allocated)
        (e, λ u. has-insert u (device_uid d) (new_vf os self w d) p.available_devices)

  Apart-scan_vf :
      (self : ℕ) (w : W) (p : PfDevice) (d : String) (ds : List String)
      → p.allocated_devices ≡ []
      → All (λ k. device_uid d ≢ device_uid k) ds
      → Apart p.available_devices ds
      → Apart (scan_vf os self w p d).available_devices ds
  Apart-scan_vf self w p d [] e n a = tt
  Apart-scan_vf self w p d (k ∷ ds) e n a = (
    ground (
      arith,
      (scan_vf-unallocated self w p d e).1 (device_uid k),
      eq_iff (device_uid d) (device_uid k),
    ),
    a.1,
    Apart-scan_vf self w p d ds e n.1 a.2,
  )

  scan_vfs_skip :
      (self : ℕ) (w : W) (p : PfDevice) (path : FilePath) (paths : List FilePath)
      → os.eval_symlinks path w ≡ none
      → scan_vfs os self w p (path ∷ paths) ≡ scan_vfs os self w p paths
  unfolding scan_vfs
  scan_vfs_skip self w p path paths e = rw (e, scan_vfs)

  scan_vfs_step :
      (self : ℕ) (w : W) (p : PfDevice) (path : FilePath) (paths : List FilePath) (q : FilePath)
      → os.eval_symlinks path w ≡ some q
      → has (device_uid (base q)) p.available_devices ≡ false
      → scan_vfs os self w p (path ∷ paths)
        ≡ scan_vfs os self w (scan_vf os self w p (base q)) paths
  unfolding scan_vfs
  scan_vfs_step self w p path paths q e h = rw (e, h, scan_vfs)

  abbrev Found : PfDevice → List String → Type 0
  Found p = All (λ d. has (device_uid d) p.available_devices ≡ true)

  -- On a PF with no VF allocated, when the VFs behind the paths have distinct UIDs and none is
  -- available yet, the loop of `getVFs` makes every one of them available.
  pub scan_vfs_complete :
      (self : ℕ) (w : W) (p : PfDevice) (paths : List FilePath)
      → p.allocated_devices ≡ []
      → Apart p.available_devices (vf_names w paths)
      → All
          (λ d. has (device_uid d) (scan_vfs os self w p paths).available_devices ≡ true)
          (vf_names w paths)
  scan_vfs_complete self w p [] e a = tt
  scan_vfs_complete self w p (path ∷ paths) e a = elim (Option-cases (os.eval_symlinks path w)) [
    | inl f ↦
        let names : vf_names w (path ∷ paths) ≡ vf_names w paths = rw (f, vf_names) in
        subst₂ Found (sym (scan_vfs_skip self w p path paths f)) (sym names)
          (scan_vfs_complete self w p paths e (rw (f, vf_names) at a))
    | inr (q, f) ↦
        let b : Apart p.available_devices (base q ∷ vf_names w paths) = rw (f, vf_names) at a in
        let names : vf_names w (path ∷ paths) ≡ base q ∷ vf_names w paths = rw (f, vf_names) in
        let next = scan_vf os self w p (base q) in
        let (free, here) = scan_vf-unallocated self w p (base q) e in
        subst₂ Found (sym (scan_vfs_step self w p path paths q f b.0)) (sym names) (
          has-scan_vfs self w next paths (device_uid (base q))
              (ground (arith, here (device_uid (base q)), eq_refl (device_uid (base q)))),
          scan_vfs_complete self w next paths free
              (Apart-scan_vf self w p (base q) (vf_names w paths) e b.1 b.2),
        )
  ]
