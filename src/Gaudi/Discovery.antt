-- ===== src/Gaudi/Discovery.antt =====
-- pkg/gaudi/discovery: the Gaudi devices that the files under /sys show. The root complex of a device is
-- looked up by a library, `pcie_root`.
pub mod Found
use Prim.Native.Char.{Char, code}
use Prim.Native.String.{◌++◌ as str_append, slice, len}
use intel_resource_drivers_f.Base.{
  ℕ, ◌+◌, Bool, true, false, ◌&&◌, ◌||◌, String, List, [], ◌∷◌, ◌++◌, Option, none, some, Dict,
  lookup, insert, if◌then◌else◌, str_eq, pci_regexp, trim_space, numbered, decimal, parse_uint,
  FilePath, Tree, glob, from,
}
use intel_resource_drivers_f.Helpers.Uids.{device_uid_from_pci_info}
use intel_resource_drivers_f.Gaudi.Types.{
  DeviceInfo, DevicesInfo, uverbs_missing_idx, set_model_name,
}

unfoldable pub determine_device_name : DeviceInfo → String → String
determine_device_name info naming_style =
    if str_eq naming_style "classic" then str_append "accel" (decimal info.device_idx) else info.uid

-- `gaudiIndexesType`
pub record GaudiIndexes : Type 0 where
  pub accel_idx : ℕ
  pub module_idx : ℕ

module _ (tree : Tree) where
  -- A file that holds a number.
  read_number : FilePath → Option ℕ
  read_number file = elim (tree.read_file file) [
    | none ↦ none
    | some text ↦ parse_uint (trim_space text)
  ]

  abbrev accel_dir : FilePath
  accel_dir = tree.sysfs_root ++ ("devices" ∷ "virtual" ∷ "accel" ∷ [])

  -- One round of the loop of `populateIndexMap`: the PCI address and the indices, of a usable entry.
  index_entry : String → Option (String × GaudiIndexes)
  unfolding read_number
  index_entry name =
      if numbered "accel" none name
      then (elim (parse_uint (from 5 name)) [
        | none ↦ none
        | some accel ↦ elim (read_number (accel_dir ++ (name ∷ "device" ∷ "module_id" ∷ []))) [
          | none ↦ none
          | some oam ↦ elim (tree.read_file (accel_dir ++ (name ∷ "device" ∷ "pci_addr" ∷ []))) [
            | none ↦ none
            | some text ↦ some (trim_space text, record { accel_idx = accel; module_idx = oam })
          ]
        ]
      ])
      else none

  index_map_from : Dict GaudiIndexes → List String → Dict GaudiIndexes
  unfolding index_entry
  index_map_from devices [] = devices
  index_map_from devices (name ∷ names) = elim (index_entry name) [
    | none ↦ index_map_from devices names
    | some (pci_address, indexes) ↦ index_map_from (insert pci_address indexes devices) names
  ]

  unfoldable pub populate_index_map : Option (Dict GaudiIndexes)
  unfolding index_map_from
  populate_index_map = elim (tree.read_dir accel_dir) [
    | none ↦ none
    | some names ↦ some (index_map_from [] names)
  ]

  -- `fallbackGetAccelIndex` and `fallbackGetModuleIndex`, by the index that they take.
  fallback_get : (GaudiIndexes → ℕ) → String → Option ℕ
  unfolding populate_index_map
  fallback_get index pci_address = elim populate_index_map [
    | none ↦ none
    | some devices ↦ elim (lookup pci_address devices) [ none ↦ none | some i ↦ some (index i) ]
  ]

  abbrev device_dir : String → FilePath
  device_dir pci_address =
      tree.sysfs_root ++ ("bus" ∷ "pci" ∷ "drivers" ∷ "habanalabs" ∷ pci_address ∷ [])

  unfoldable pub get_accel_index : String → Option ℕ
  unfolding fallback_get
  get_accel_index pci_address =
      elim (glob tree (device_dir pci_address ++ ("accel" ∷ [])) "accel") [
        | name ∷ [] ↦ parse_uint (from 5 name)
        | _ ↦ fallback_get (λ i. i.accel_idx) pci_address
      ]

  unfoldable pub get_module_id : String → Option ℕ
  unfolding fallback_get
  get_module_id pci_address = elim (tree.read_file (device_dir pci_address ++ ("module_id" ∷ []))) [
    | none ↦ fallback_get (λ i. i.module_idx) pci_address
    | some text ↦ parse_uint (trim_space text)
  ]

  unfoldable pub get_uverbs_id : String → Option ℕ
  get_uverbs_id pci_address =
      elim (glob tree (device_dir pci_address ++ ("infiniband_verbs" ∷ [])) "uverbs") [
        | name ∷ [] ↦ parse_uint (from 6 name)
        | _ ↦ none
      ]

  module _ (pcie_root : String → Option String) where
    new_device : String → String → ℕ → ℕ → DeviceInfo
    unfolding get_uverbs_id
    new_device pci_address model device_idx module_idx = set_model_name (record {
      uid = device_uid_from_pci_info pci_address model;
      pci_address = pci_address;
      model = model;
      model_name = "";
      device_idx = device_idx;
      module_idx = module_idx;
      pci_root = elim (pcie_root pci_address) [ none ↦ "" | some root ↦ root ];
      uverbs_idx = elim (get_uverbs_id pci_address) [ none ↦ uverbs_missing_idx | some idx ↦ idx ];
      serial = "";
      healthy = true;
    })

    -- One round of the loop of `scanDevicesFromDriverDirFiles`.
    unfoldable pub scan_device : String → Option DeviceInfo
    unfolding get_accel_index get_module_id new_device
    scan_device pci_address =
        if pci_regexp pci_address
        then (elim (tree.read_file (device_dir pci_address ++ ("device" ∷ []))) [
          | none ↦ none
          | some text ↦ elim (get_accel_index pci_address) [
            | none ↦ none
            | some device_idx ↦ elim (get_module_id pci_address) [
              | none ↦ none
              | some module_idx ↦
                  some (new_device pci_address (trim_space text) device_idx module_idx)
            ]
          ]
        ])
        else none

    unfoldable pub scan_devices : String → DevicesInfo → List String → DevicesInfo
    unfolding scan_device
    scan_devices naming_style devices [] = devices
    scan_devices naming_style devices (name ∷ names) = elim (scan_device name) [
      | none ↦ scan_devices naming_style devices names
      | some info ↦
          scan_devices naming_style (insert (determine_device_name info naming_style) info devices)
            names
    ]

    unfoldable pub discover_devices : String → DevicesInfo
    unfolding scan_devices
    discover_devices naming_style =
        elim (tree.read_dir (tree.sysfs_root ++ ("bus" ∷ "pci" ∷ "drivers" ∷ "habanalabs" ∷ []))) [
          | none ↦ []
          | some names ↦ scan_devices naming_style [] names
        ]
