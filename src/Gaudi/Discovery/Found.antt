-- ===== src/Gaudi/Discovery/Found.antt =====
-- What holds of every device that pkg/gaudi/discovery finds.
use intel_resource_drivers_f.Base.{
  ℕ, ◌^◌, ◌<◌, ◌≡◌, refl, subst, inl, inr, true, String, List, [], ◌∷◌, ◌++◌, Option, none, some,
  Dict, lookup, insert, arith, All, All-lookup, All-insert, Option-cases, Bool-cases, trim_space,
  parse_uint, parse_uint_fits, glob, from, pci_regexp, FilePath, Tree,
}
use intel_resource_drivers_f.Helpers.Uids.{device_uid_from_pci_info}
use intel_resource_drivers_f.Gaudi.Types.{DeviceInfo, DevicesInfo, set_model_name}
use intel_resource_drivers_f.Gaudi.Discovery.{
  determine_device_name, GaudiIndexes, read_number, index_entry, index_map_from, populate_index_map,
  fallback_get, accel_dir, device_dir, get_accel_index, get_module_id, get_uverbs_id, new_device,
  scan_device, scan_devices, discover_devices,
}

abbrev pub IsFound : String → String × DeviceInfo → Type 0
IsFound naming_style (name, g) =
    (name ≡ determine_device_name g naming_style)
    × (g.uid ≡ device_uid_from_pci_info g.pci_address g.model)
    × (pci_regexp g.pci_address ≡ true)
    × (g.healthy ≡ true)
    × (g.device_idx < 2 ^ 64)
    × (g.module_idx < 2 ^ 64)
    × (g.uverbs_idx < 2 ^ 64)

abbrev IndexesFit : String × GaudiIndexes → Type 0
IndexesFit (_, i) = (i.accel_idx < 2 ^ 64) × (i.module_idx < 2 ^ 64)

module _ (tree : Tree) where
  read_number_fits : (file : FilePath) (n : ℕ) → read_number tree file ≡ some n → n < 2 ^ 64
  unfolding read_number
  read_number_fits file n h = elim (Option-cases (tree.read_file file)) [
    | inl e ↦ absurd (ground (arith, h, e))
    | inr (text, e) ↦ parse_uint_fits (trim_space text) n (ground (arith, h, e))
  ]

  index_entry-IndexesFit :
      (name pci_address : String) (i : GaudiIndexes)
      → index_entry tree name ≡ some (pci_address, i)
      → IndexesFit (pci_address, i)
  unfolding index_entry
  index_entry-IndexesFit name pci_address i h = ground (
    arith,
    h,
    parse_uint_fits (from 5 name) i.accel_idx,
    read_number_fits (accel_dir tree ++ (name ∷ "device" ∷ "module_id" ∷ [])) i.module_idx,
  )

  index_map_from-IndexesFit :
      (names : List String) (devices : Dict GaudiIndexes)
      → All IndexesFit devices
      → All IndexesFit (index_map_from tree devices names)
  unfolding index_map_from
  index_map_from-IndexesFit [] devices h = h
  index_map_from-IndexesFit (name ∷ names) devices h = elim (Option-cases (index_entry tree name)) [
    | inl e ↦ rw (e, index_map_from) (index_map_from-IndexesFit names devices h)
    | inr ((k, i), e) ↦
        rw (e, index_map_from)
          (index_map_from-IndexesFit names (insert k i devices)
            (All-insert IndexesFit k i devices (index_entry-IndexesFit name k i e) h))
  ]

  fallback_get_fits :
      (index : GaudiIndexes → ℕ) (pci_address : String) (n : ℕ)
      → ((e : String × GaudiIndexes) → IndexesFit e → index e.1 < 2 ^ 64)
      → fallback_get tree index pci_address ≡ some n
      → n < 2 ^ 64
  unfolding fallback_get populate_index_map
  fallback_get_fits index pci_address n fits h =
      elim (Option-cases (tree.read_dir (accel_dir tree))) [
        | inl e ↦ absurd (ground (arith, h, e))
        | inr (names, e) ↦
            let devices = index_map_from tree [] names in
            elim (Option-cases (lookup pci_address devices)) [
              | inl f ↦ absurd (ground (arith, h, e, f))
              | inr (i, f) ↦
                  let found =
                    All-lookup IndexesFit pci_address devices
                      (index_map_from-IndexesFit names [] tt) f in
                  ground (arith, h, e, f, fits (pci_address, i) found)
            ]
      ]

  get_accel_index_fits :
      (pci_address : String) (n : ℕ) → get_accel_index tree pci_address ≡ some n → n < 2 ^ 64
  unfolding get_accel_index
  get_accel_index_fits pci_address n h =
      let fallen = fallback_get_fits (λ i. i.accel_idx) pci_address n (λ e f. f.0) in
      go (glob tree (device_dir tree pci_address ++ ("accel" ∷ [])) "accel") fallen h
    where
      go :
          (names : List String)
          → (fallback_get tree (λ i. i.accel_idx) pci_address ≡ some n → n < 2 ^ 64)
          → elim names [
            | name ∷ [] ↦ parse_uint (from 5 name)
            | _ ↦ fallback_get tree (λ i. i.accel_idx) pci_address
          ]
            ≡ some n
          → n < 2 ^ 64
      go [] f k = f k
      go (name ∷ []) f k = parse_uint_fits (from 5 name) n k
      go (name ∷ other ∷ names) f k = f k

  get_module_id_fits :
      (pci_address : String) (n : ℕ) → get_module_id tree pci_address ≡ some n → n < 2 ^ 64
  unfolding get_module_id
  get_module_id_fits pci_address n h =
      elim (Option-cases (tree.read_file (device_dir tree pci_address ++ ("module_id" ∷ [])))) [
        | inl e ↦
            fallback_get_fits (λ i. i.module_idx) pci_address n (λ e f. f.1) (ground (arith, h, e))
        | inr (text, e) ↦ parse_uint_fits (trim_space text) n (ground (arith, h, e))
      ]

  get_uverbs_id_fits :
      (pci_address : String) (n : ℕ) → get_uverbs_id tree pci_address ≡ some n → n < 2 ^ 64
  unfolding get_uverbs_id
  get_uverbs_id_fits pci_address n h =
      go (glob tree (device_dir tree pci_address ++ ("infiniband_verbs" ∷ [])) "uverbs") h
    where
      go :
          (names : List String)
          → elim names [ name ∷ [] ↦ parse_uint (from 6 name) | _ ↦ none ] ≡ some n
          → n < 2 ^ 64
      go [] k = absurd (ground (arith, k))
      go (name ∷ []) k = parse_uint_fits (from 6 name) n k
      go (name ∷ other ∷ names) k = absurd (ground (arith, k))

  module _ (pcie_root : String → Option String) where
    uverbs_idx_fits :
        (name model : String) (a m : ℕ)
        → (new_device tree pcie_root name model a m).uverbs_idx < 2 ^ 64
    unfolding new_device set_model_name
    uverbs_idx_fits name model a m = elim (Option-cases (get_uverbs_id tree name)) [
      | inl e ↦ rw e (omega arith)
      | inr (n, e) ↦ rw e (get_uverbs_id_fits name n e)
    ]

    new_device-IsFound :
        (style name model : String) (a m : ℕ)
        → pci_regexp name ≡ true
        → a < 2 ^ 64
        → m < 2 ^ 64
        → IsFound style (
          determine_device_name (new_device tree pcie_root name model a m) style,
          new_device tree pcie_root name model a m,
        )
    unfolding new_device set_model_name
    new_device-IsFound style name model a m p fa fm =
        (refl, refl, p, refl, fa, fm, uverbs_idx_fits name model a m)

    scan_device-IsFound :
        (style name : String) (g : DeviceInfo)
        → scan_device tree pcie_root name ≡ some g
        → IsFound style (determine_device_name g style, g)
    unfolding scan_device
    scan_device-IsFound style name g h = elim (Bool-cases (pci_regexp name)) [
      | inr t ↦ absurd (ground (arith, h, t))
      | inl t ↦ elim (Option-cases (tree.read_file (device_dir tree name ++ ("device" ∷ [])))) [
        | inl e ↦ absurd (ground (arith, h, t, e))
        | inr (text, e) ↦ elim (Option-cases (get_accel_index tree name)) [
          | inl f ↦ absurd (ground (arith, h, t, e, f))
          | inr (a, f) ↦ elim (Option-cases (get_module_id tree name)) [
            | inl k ↦ absurd (ground (arith, h, t, e, f, k))
            | inr (m, k) ↦
                let made : new_device tree pcie_root name (trim_space text) a m ≡ g =
                  ground (arith, h, t, e, f, k) in
                subst (λ (x : DeviceInfo). IsFound style (determine_device_name x style, x)) made
                  (new_device-IsFound style name (trim_space text) a m t
                    (get_accel_index_fits name a f) (get_module_id_fits name m k))
          ]
        ]
      ]
    ]

    scan_devices-IsFound :
        (style : String) (names : List String) (devices : DevicesInfo)
        → All (IsFound style) devices
        → All (IsFound style) (scan_devices tree pcie_root style devices names)
    unfolding scan_devices
    scan_devices-IsFound style [] devices h = h
    scan_devices-IsFound style (name ∷ names) devices h =
        elim (Option-cases (scan_device tree pcie_root name)) [
          | inl e ↦ rw (e, scan_devices) (scan_devices-IsFound style names devices h)
          | inr (g, e) ↦
              rw (e, scan_devices)
                (scan_devices-IsFound style names (insert (determine_device_name g style) g devices)
                  (All-insert (IsFound style) (determine_device_name g style) g devices
                    (scan_device-IsFound style name g e) h))
        ]

    -- Whatever sysfs holds, each Gaudi device that is discovered is filed under its name in the
    -- naming style, has the UID of its address and model, an address that contains a PCI address, is
    -- healthy, and has indices of the device, the module and the uverbs node below 2^64.
    pub discover_devices-IsFound :
        (style : String) → All (IsFound style) (discover_devices tree pcie_root style)
    unfolding discover_devices
    discover_devices-IsFound style =
        elim (Option-cases
          (tree.read_dir (tree.sysfs_root ++ ("bus" ∷ "pci" ∷ "drivers" ∷ "habanalabs" ∷ [])))) [
            | inl e ↦ rw (e, discover_devices) tt
            | inr (names, e) ↦ rw (e, discover_devices) (scan_devices-IsFound style names [] tt)
          ]
