-- ===== src/Qat/Types.antt =====
-- The data of pkg/qat/device/device.go: `PFDevice` is a physical function (PF) of a QAT device,
-- `VFDevice` one of its virtual functions (VF).
use Prim.Native.String.{◌++◌ as str_append}
use intel_resource_drivers_f.Base.{
  ℕ, ℤ, Bool, String, Option, none, some, Dict, if◌then◌else◌, str_eq, replace_all,
}

pub data State : Type 0 where
  down up : State

unfoldable pub state_string : State → String
state_string State.down = "down"
state_string State.up = "up"

-- `stringToState`
unfoldable pub string_to_state : String → Option State
string_to_state s =
    if str_eq s "down" then some State.down else if str_eq s "up" then some State.up else none

pub data VfDriver : Type 0 where
  unbound vfio_pci unknown : VfDriver

-- `stringToDriver[driver]`: a missing key reads as the zero value, which is `Unbound`.
unfoldable pub string_to_driver : String → VfDriver
string_to_driver s = if str_eq s "vfio-pci" then VfDriver.vfio_pci else VfDriver.unbound

-- A pointer to a `PFDevice` is its address in the driver's heap.
pub record VfDevice : Type 0 where
  pub pfdevice : ℕ
  pub vf_device : String
  pub vf_driver : VfDriver
  pub vf_iommu : String

-- Mapped by device UID.
abbrev pub VfDevices : Type 0
VfDevices = Dict VfDevice

-- Mapped by claim, then by device UID.
abbrev pub AllocatedDevices : Type 0
AllocatedDevices = Dict VfDevices

pub record PfDevice : Type 0 where
  pub allow_reconfiguration : Bool
  pub device : String
  pub state : State
  pub services : ℕ
  pub num_vfs : ℤ
  pub total_vfs : ℤ
  pub available_devices : VfDevices
  pub allocated_devices : AllocatedDevices

unfoldable pub device_uid : String → String
device_uid device = str_append "qatvf-" (replace_all b'.' "-" (replace_all b':' "-" device))

unfoldable pub uid : VfDevice → String
uid v = device_uid v.vf_device

pub data Error : Type 0 where
  missing_file_name cannot_read write_failed unknown_state unsupported_service not_a_number : Error
  devices_allocated no_allocator : Error
  no_such_device : String → Error
  no_more_devices : Error
  device_not_found no_device_uid : Error

abbrev pub cdi_vendor : String
cdi_vendor = "intel.com"

abbrev pub cdi_kind : String
cdi_kind = "intel.com/qat"

abbrev pub driver_name : String
driver_name = "qat.intel.com"

unfoldable pub cdi_name : VfDevice → String
unfolding uid
cdi_name v = str_append cdi_kind (str_append "=" (uid v))

-- `GetControlNode`
abbrev pub control_node : VfDevice
control_node = record {
  pfdevice = 0;
  vf_device = "vfio";
  vf_driver = VfDriver.vfio_pci;
  vf_iommu = "vfio";
}

unfoldable pub device_node : VfDevice → String
device_node v = str_append "/dev/vfio/" v.vf_iommu
