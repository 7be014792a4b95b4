-- ===== src/Gpu/Types.antt =====
-- `DeviceInfo` of pkg/gpu/device/device.go.
use Prim.Native.String.{◌++◌ as str_append}
use intel_resource_drivers_f.Base.{
  ℕ, Bool, true, false, ◌||◌, String, List, [], ◌∷◌, Dict, if◌then◌else◌, str_eq,
}

-- The values of `HealthStatus`: "Unknown", "Healthy" and "Unhealthy".
pub data Health : Type 0 where
  unknown healthy unhealthy : Health

abbrev pub health_eq : Health → Health → Bool
health_eq Health.unknown Health.unknown = true
health_eq Health.healthy Health.healthy = true
health_eq Health.unhealthy Health.unhealthy = true
health_eq _ _ = false

abbrev pub i915 : String
i915 = "i915"

abbrev pub xe : String
xe = "xe"

abbrev pub vfio_pci : String
vfio_pci = "vfio-pci"

abbrev pub xe_vfio_pci : String
xe_vfio_pci = "xe-vfio-pci"

abbrev pub driver_name : String
driver_name = "gpu.intel.com"

abbrev pub vfio_device_class_name : String
vfio_device_class_name = "gpu-vfio.intel.com"

abbrev pub cdi_kind : String
cdi_kind = "intel.com/gpu"

abbrev pub cdi_mei_kind : String
cdi_mei_kind = "intel.com/gpu-mei"

abbrev pub device_absent : String
device_absent = "DeviceAbsent"

abbrev pub unexpected_driver : String
unexpected_driver = "UnexpectedDriver"

abbrev pub unbound_unmanaged : String
unbound_unmanaged = "UnboundUnmanaged"

-- `HealthCustomList`
abbrev pub health_custom_list : List String
health_custom_list = device_absent ∷ unexpected_driver ∷ unbound_unmanaged ∷ []

-- A nil `HealthStatus` is the empty map: `Health` makes one before anything writes to it.
pub record DeviceInfo : Type 0 where
  pub uid : String
  pub pci_address : String
  pub model : String
  pub model_name : String
  pub family_name : String
  pub mei_name : String
  pub card_name : String
  pub render_d_name : String
  pub memory_mib : ℕ
  pub millicores : ℕ
  pub device_type : String
  pub max_vfs : ℕ
  pub parent_uid : String
  pub vf_profile : String
  pub vf_index : ℕ
  pub provisioned : Bool
  pub driver : String
  pub current_driver : String
  pub pci_root : String
  pub health_status : Dict Health
  pub vfio_device : String
  pub iommu_group : String

abbrev pub DevicesInfo : Type 0
DevicesInfo = Dict DeviceInfo

unfoldable pub cdi_name : DeviceInfo → String
cdi_name g = str_append cdi_kind (str_append "=" g.uid)

unfoldable pub mei_cdi_name : DeviceInfo → String
mei_cdi_name g =
    if str_eq g.mei_name "" then "" else str_append cdi_mei_kind (str_append "=" g.mei_name)

unfoldable pub is_drm_bound : DeviceInfo → Bool
is_drm_bound g = str_eq g.current_driver i915 || str_eq g.current_driver xe

unfoldable pub is_vfio_bound : DeviceInfo → Bool
is_vfio_bound g = str_eq g.current_driver vfio_pci || str_eq g.current_driver xe_vfio_pci

-- The loop of `Health`, with `unknownOnly`.
unfoldable pub health_from : Bool → Dict Health → Health
health_from unknown_only [] = if unknown_only then Health.unknown else Health.healthy
health_from unknown_only ((_, h) ∷ rest) = elim h [
  | Health.unhealthy ↦ Health.unhealthy
  | Health.healthy ↦ health_from false rest
  | Health.unknown ↦ health_from unknown_only rest
]

-- `Health`: without an entry the loop gives `HealthUnknown` too.
unfoldable pub overall : Dict Health → Health
unfolding health_from
overall status = health_from true status
