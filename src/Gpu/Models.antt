-- ===== src/Gpu/Models.antt =====
-- The known GPU models: pkg/gpu/device/models.go, and what pkg/gpu/device/device.go makes of them.
use intel_resource_drivers_f.Base.{
  ℕ, ◌+◌, Bool, ◌||◌, not, String, [], ◌∷◌, Dict, none, some, lookup, str_eq, ◌==◌,
}
use intel_resource_drivers_f.Helpers.Uids.{pci_info_from_device_uid}
use intel_resource_drivers_f.Gpu.Types.{DeviceInfo, i915, xe}

-- The three entries of each model.
pub record Details : Type 0 where
  pub model : String
  pub family : String
  pub driver : String

abbrev details : String → String → String → Details
details model family driver = record { model = model; family = family; driver = driver }

-- `ModelDetails`
abbrev pub model_details : Dict Details
model_details =
    ("0x4626", details "Alder Lake-P" "Iris Xe" i915)
    ∷ ("0x56a0", details "A770" "Arc A-Series" i915)
    ∷ ("0x56a1", details "A750" "Arc A-Series" i915)
    ∷ ("0x56a2", details "A580" "Arc A-Series" i915)
    ∷ ("0x56a5", details "A380" "Arc A-Series" i915)
    ∷ ("0x56a6", details "A310" "Arc A-Series" i915)
    ∷ ("0x56b0", details "A30M" "Arc Pro A-Series" i915)
    ∷ ("0x56b1", details "A40/A50" "Arc Pro A-Series" i915)
    ∷ ("0x56b2", details "A60M" "Arc Pro A-Series" i915)
    ∷ ("0x56b3", details "A60" "Arc Pro A-Series" i915)
    ∷ ("0x56c0", details "Flex 170" "Data Center Flex" i915)
    ∷ ("0x56c1", details "Flex 140" "Data Center Flex" i915)
    ∷ ("0x7d67", details "Arrow Lake-S" "Intel Graphics" i915)
    ∷ ("0x0b69", details "Max 1550" "Data Center Max" i915)
    ∷ ("0x0bd0", details "Max 1550" "Data Center Max" i915)
    ∷ ("0x0bd5", details "Max 1550" "Data Center Max" i915)
    ∷ ("0x0bd6", details "Max 1450" "Data Center Max" i915)
    ∷ ("0x0bd9", details "Max 1100" "Data Center Max" i915)
    ∷ ("0x0bda", details "Max 1100" "Data Center Max" i915)
    ∷ ("0x0bdb", details "Max 1100" "Data Center Max" i915)
    ∷ ("0xa7a0", details "Raptor Lake-P" "Iris Xe" i915)
    ∷ ("0xb080", details "B390" "Arc B-Series" xe)
    ∷ ("0xb081", details "B370" "Arc B-Series" xe)
    ∷ ("0xb082", details "B390" "Arc B-Series" xe)
    ∷ ("0xb083", details "B370" "Arc B-Series" xe)
    ∷ ("0xb084", details "B390" "Arc B-Series" xe)
    ∷ ("0xb085", details "B370" "Arc B-Series" xe)
    ∷ ("0xb086", details "B390" "Arc B-Series" xe)
    ∷ ("0xb087", details "B370" "Arc B-Series" xe)
    ∷ ("0xe20b", details "B580" "Arc B-Series" xe)
    ∷ ("0xe20c", details "B570" "Arc B-Series" xe)
    ∷ ("0xe211", details "B60" "Arc Pro B-Series" xe)
    ∷ ("0xe212", details "B50" "Arc Pro B-Series" xe)
    ∷ ("0xe222", details "B65" "Arc Pro B-Series" xe)
    ∷ ("0xe223", details "B70" "Arc Pro B-Series" xe)
    ∷ []

unfoldable pub set_model_info : DeviceInfo → DeviceInfo
set_model_info g = elim (lookup g.model model_details) [
  | none ↦ record g { model_name = "Unknown"; family_name = "Unknown" }
  | some d ↦ record g { model_name = d.model; family_name = d.family }
]

-- `PCIVGAClassID` and `PCIDisplayClassID`
unfoldable pub is_gpu_class : String → Bool
is_gpu_class class_id = str_eq class_id "0x030000" || str_eq class_id "0x038000"

unfoldable pub drm_vf_index : DeviceInfo → ℕ
drm_vf_index g = g.vf_index + 1

unfoldable pub sriov_enabled : DeviceInfo → Bool
sriov_enabled g = not (g.max_vfs == 0)

unfoldable pub parent_pci_address : DeviceInfo → String
parent_pci_address g = (pci_info_from_device_uid g.parent_uid).0
