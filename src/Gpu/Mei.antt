-- ===== src/Gpu/Mei.antt =====
-- The MEI device of a GPU: pkg/gpu/mei/mei.go.
use Prim.Native.String.{compare}
use Prim.Native.Nat.{Ordering}
use intel_resource_drivers_f.Base.{
  Bool, true, false, ◌&&◌, not, String, List, [], ◌∷◌, ◌++◌, none, some, keep, if◌then◌else◌,
  str_eq, numbered, join, has_prefix, contains,
}
use intel_resource_drivers_f.Gpu.Sysfs.{FilePath, Os, device_file}
use intel_resource_drivers_f.Gpu.Probe.{Probe}

-- Is the second path inside of the first?
inside : FilePath → FilePath → Bool
inside [] [] = false
inside [] (c ∷ cs) = true
inside (d ∷ ds) [] = false
inside (d ∷ ds) (c ∷ cs) = str_eq d c && inside ds cs

-- The first of the paths by `sort.Strings`, each with its last component.
least : String × String → List (String × String) → String × String
least p [] = p
least p (q ∷ qs) = elim (compare q.0 p.0) [ Ordering.lt ↦ least q qs | _ ↦ least p qs ]

mei_paths : String → List String → List (String × String)
mei_paths dir [] = []
mei_paths dir (name ∷ names) = (join "/" (dir ∷ "mei" ∷ name ∷ []), name) ∷ mei_paths dir names

module _ {W : Type 0} (os : Os W) (probe : Probe W) where
  -- The loop of `discoverMEIDeviceFromClassMEI`.
  mei_from : FilePath → List String → W → String
  unfolding inside
  mei_from device [] w = ""
  mei_from device (name ∷ names) w =
      let later = mei_from device names w in
      if not (numbered "mei" none name)
      then later
      else (elim (probe.eval_symlinks (os.sysfs_root ++ ("class" ∷ "mei" ∷ name ∷ [])) w) [
        | none ↦ later
        | some path ↦ if inside device path then name else later
      ])

  discover_mei_device_from_class_mei : String → W → String
  unfolding mei_from
  discover_mei_device_from_class_mei pci_address w =
      elim (os.read_dir (os.sysfs_root ++ ("class" ∷ "mei" ∷ [])) w) [
        | none ↦ ""
        | some names ↦ elim (probe.eval_symlinks (device_file os pci_address []) w) [
          | none ↦ ""
          | some device ↦ mei_from device names w
        ]
      ]

  -- The paths that match `*mei*/mei/mei*` below a device.
  mei_below : String → List String → W → List (String × String)
  unfolding mei_paths
  mei_below pci_address [] w = []
  mei_below pci_address (dir ∷ dirs) w =
      let later = mei_below pci_address dirs w in
      if contains "mei" dir
      then (elim (os.read_dir (device_file os pci_address (dir ∷ "mei" ∷ [])) w) [
        | none ↦ later
        | some names ↦ mei_paths dir (keep (has_prefix "mei") names) ++ later
      ])
      else later

  -- The pattern's part of `DiscoverMEIDeviceForGPU`, with `globFirstPath`.
  discover_mei_device_below : String → W → String
  unfolding mei_below least
  discover_mei_device_below pci_address w = elim (os.read_dir (device_file os pci_address []) w) [
    | none ↦ ""
    | some dirs ↦ elim (mei_below pci_address dirs w) [
      | [] ↦ ""
      | p ∷ ps ↦ let (_, name) = least p ps in if numbered "mei" none name then name else ""
    ]
  ]

  unfoldable pub discover_mei_device_for_gpu : String → W → String
  unfolding discover_mei_device_from_class_mei discover_mei_device_below
  discover_mei_device_for_gpu pci_address w =
      let name = discover_mei_device_from_class_mei pci_address w in
      if str_eq name "" then discover_mei_device_below pci_address w else name
