-- ===== src/Gaudi/Node/Environment.antt =====
-- The environment that `prepareAllocatedDevices` of cmd/kubelet-gaudi-plugin hands to a container, as the
-- runtime in it reads it.
use intel_resource_drivers_f.Base.{
  ℕ, ◌^◌, ◌<◌, ◌≡◌, refl, ◌∙◌, ap, subst, sym, ok, keep, inl, inr, String, List, [], ◌∷◌, map, some,
  lookup, All, All-map, All-lookup, arith, Option-cases, split, join, decimal, parse_uint,
  split-join, parse_uint-decimal, decimal-free_of, free_of, true,
}
use intel_resource_drivers_f.Kubelet.{AllocationResult}
use intel_resource_drivers_f.Gaudi.Types.{
  DeviceInfo, DevicesInfo, visible_devices_env_var_name, visible_modules_env_var_name,
  hl_visible_devices_env_var_name,
}
use intel_resource_drivers_f.Gaudi.Node.{
  NodeState, Collected, is_ours, collect_devices, env_var, environment,
}
use intel_resource_drivers_f.Gaudi.Node.Reader.{
  get_list, get_list-env_var, get_list-other, free_of-append,
}
use Prim.Native.String.{◌++◌ as str_append}
use intel_resource_drivers_f.Gaudi.Node.Answers.{
  Pair, look_up_all, pair_with, summary, described, collect_devices_lem,
}

module _ {ℓ} {A : Type ℓ} (index : A → ℕ) where
  All-free :
      (xs : List A)
      → All (λ x. index x < 2 ^ 64) xs
      → All (λ s. free_of b',' s ≡ true) (map (λ x. decimal (index x)) xs)
  All-free [] h = tt
  All-free (x ∷ xs) h = (decimal-free_of (index x) h.0, All-free xs h.1)

  All-read :
      (xs : List A)
      → All (λ x. index x < 2 ^ 64) xs
      → map parse_uint (map (λ x. decimal (index x)) xs) ≡ map (λ x. some (index x)) xs
  All-read [] h = refl
  All-read (x ∷ xs) h = rw (parse_uint-decimal (index x) h.0, All-read xs h.1) refl

  -- Numbers in one text, with commas, are read back.
  numbers_read_back :
      (x : A) (xs : List A)
      → All (λ y. index y < 2 ^ 64) (x ∷ xs)
      → map parse_uint (split b',' (join "," (map (λ y. decimal (index y)) (x ∷ xs))))
        ≡ map (λ y. some (index y)) (x ∷ xs)
  numbers_read_back x xs h =
      ap (map parse_uint)
        (split-join (decimal (index x)) (map (λ y. decimal (index y)) xs) (All-free (x ∷ xs) h))
      ∙ All-read (x ∷ xs) h

abbrev pub IndicesFit : String × DeviceInfo → Type 0
IndicesFit (_, g) = (g.device_idx < 2 ^ 64) × (g.module_idx < 2 ^ 64)

abbrev PairFits : Pair → Type 0
PairFits (_, g) = (g.device_idx < 2 ^ 64) × (g.module_idx < 2 ^ 64)

-- The path of the device's node.
abbrev pub accel_path : Pair → String
accel_path (_, g) = str_append "/dev/accel/accel" (decimal g.device_idx)

look_up_all-PairFits :
    (allocatable : DevicesInfo) (rs : List AllocationResult) (ps : List Pair)
    → All IndicesFit allocatable
    → look_up_all allocatable rs ≡ some ps
    → All PairFits ps
unfolding look_up_all pair_with
look_up_all-PairFits allocatable [] ps fits e =
    let same : [] ≡ ps = ground (arith, e) in subst (All PairFits) same tt
look_up_all-PairFits allocatable (a ∷ rs) ps fits e =
    elim (Option-cases (lookup a.device allocatable)) [
      | inl f ↦ absurd (ground (arith, e, f))
      | inr (g, f) ↦ elim (Option-cases (look_up_all allocatable rs)) [
        | inl k ↦ absurd (ground (arith, e, f, k))
        | inr (qs, k) ↦
            let same : ((a, g) ∷ qs) ≡ ps = ground (arith, e, f, k) in
            subst (All PairFits) same (
              All-lookup IndicesFit a.device allocatable fits f,
              look_up_all-PairFits allocatable rs qs fits k,
            )
      ]
    ]

-- The paths are free of commas too.
paths_free :
    (ps : List Pair) → All PairFits ps → All (λ s. free_of b',' s ≡ true) (map accel_path ps)
paths_free [] h = tt
paths_free ((a, g) ∷ ps) h = (
  free_of-append b',' "/dev/accel/accel" (decimal g.device_idx) refl
      (decimal-free_of g.device_idx h.0.0),
  paths_free ps h.1,
)

-- What a process reads of these devices in its environment.
abbrev pub ReadsBack : List Pair → List String → Type 0
ReadsBack ps entries =
    (map parse_uint (get_list visible_devices_env_var_name entries)
      ≡ map (λ q. some q.1.device_idx) ps)
    × (map parse_uint (get_list visible_modules_env_var_name entries)
        ≡ map (λ q. some q.1.module_idx) ps)
    × (get_list hl_visible_devices_env_var_name entries ≡ map accel_path ps)

summary-ReadsBack :
    (p : Pair) (ps : List Pair)
    → All PairFits (p ∷ ps)
    → ReadsBack (p ∷ ps) (environment (summary (p ∷ ps)))
summary-ReadsBack p ps fit =
    let c = summary (p ∷ ps) in
    let modules = env_var visible_modules_env_var_name c.visible_module_indices in
    let paths = env_var hl_visible_devices_env_var_name c.hl_visible_device_paths in
    (
      ap (map parse_uint) (
            get_list-env_var visible_devices_env_var_name c.visible_device_indices
              (modules ∷ paths ∷ []))
          ∙ numbers_read_back (λ (q : Pair). q.1.device_idx) p ps
              (All-map PairFits _ (p ∷ ps) (λ q f. f.0) fit),
      ap (map parse_uint) (
            get_list-other visible_modules_env_var_name visible_devices_env_var_name
              c.visible_device_indices (modules ∷ paths ∷ []) refl
            ∙ get_list-env_var visible_modules_env_var_name c.visible_module_indices (paths ∷ []))
          ∙ numbers_read_back (λ (q : Pair). q.1.module_idx) p ps
              (All-map PairFits _ (p ∷ ps) (λ q f. f.1) fit),
      get_list-other hl_visible_devices_env_var_name visible_devices_env_var_name
            c.visible_device_indices (modules ∷ paths ∷ []) refl
          ∙ get_list-other hl_visible_devices_env_var_name visible_modules_env_var_name
              c.visible_module_indices (paths ∷ []) refl
          ∙ get_list-env_var hl_visible_devices_env_var_name c.hl_visible_device_paths []
          ∙ split-join (accel_path p) (map accel_path ps) (paths_free (p ∷ ps) fit),
    )

module _ {W : Type 0} where
  -- Let the indices of all devices fit 64 bits, and each device of the driver in an allocation be
  -- known, at least one. If `prepareAllocatedDevices` collects the devices without an error, a
  -- process that looks the three variables up by name in the environment of the container, and
  -- splits their values at the commas, reads the device indices and the module indices, as numbers,
  -- and the paths of the accel nodes of these devices, in the order of the allocation.
  pub environment-ReadsBack :
      (rs : List AllocationResult) (s : NodeState W) (c : Collected) (p : Pair) (ps : List Pair)
      → All IndicesFit s.allocatable
      → look_up_all s.allocatable (keep (is_ours s) rs) ≡ some (p ∷ ps)
      → collect_devices rs s ≡ ok c
      → ReadsBack (p ∷ ps) (environment c)
  environment-ReadsBack rs s c p ps fits e h =
      let fit = look_up_all-PairFits s.allocatable (keep (is_ours s) rs) (p ∷ ps) fits e in
      let described_c : described (some (p ∷ ps)) ≡ ok c =
        sym (collect_devices_lem rs s ∙ ap described e) ∙ h in
      let same : summary (p ∷ ps) ≡ c = ground (arith, described_c) in
      subst (λ (x : Collected). ReadsBack (p ∷ ps) (environment x)) same
        (summary-ReadsBack p ps fit)
