-- ===== src/Gaudi/Types.antt =====
-- `DeviceInfo` of pkg/gaudi/device/device.go.
use Prim.Native.String.{◌++◌ as str_append}
use intel_resource_drivers_f.Base.{ℕ, Bool, String, [], ◌∷◌, none, some, Dict, lookup}

abbrev pub cdi_kind : String
cdi_kind = "intel.com/gaudi"

abbrev pub driver_name : String
driver_name = "gaudi.intel.com"

abbrev pub visible_devices_env_var_name : String
visible_devices_env_var_name = "HABANA_VISIBLE_DEVICES"

abbrev pub visible_modules_env_var_name : String
visible_modules_env_var_name = "HABANA_VISIBLE_MODULES"

abbrev pub hl_visible_devices_env_var_name : String
hl_visible_devices_env_var_name = "HL_VISIBLE_DEVICES"

-- No InfiniBand device has this index.
abbrev pub uverbs_missing_idx : ℕ
uverbs_missing_idx = 1024

-- `ModelNames`
abbrev pub model_names : Dict String
model_names =
    ("0x1000", "Gaudi")
    ∷ ("0x1010", "Gaudi")
    ∷ ("0x1001", "Gaudi")
    ∷ ("0x1011", "Gaudi")
    ∷ ("0x1020", "Gaudi2")
    ∷ ("0x1030", "Gaudi3")
    ∷ ("0x1060", "Gaudi3")
    ∷ ("0x1061", "Gaudi3")
    ∷ ("0x1062", "Gaudi3")
    ∷ ("0x1063", "Gaudi3")
    ∷ []

-- The indices are `uint64`.
pub record DeviceInfo : Type 0 where
  pub uid : String
  pub pci_address : String
  pub model : String
  pub model_name : String
  pub device_idx : ℕ
  pub module_idx : ℕ
  pub pci_root : String
  pub uverbs_idx : ℕ
  pub serial : String
  pub healthy : Bool

abbrev pub DevicesInfo : Type 0
DevicesInfo = Dict DeviceInfo

unfoldable pub cdi_name : DeviceInfo → String
cdi_name g = str_append cdi_kind (str_append "=" g.uid)

unfoldable pub set_model_name : DeviceInfo → DeviceInfo
set_model_name g = record g {
  model_name = elim (lookup g.model model_names) [ none ↦ "Unknown" | some name ↦ name ];
}
