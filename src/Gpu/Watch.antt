-- ===== src/Gpu/Watch.antt =====
-- The udev events of GPUs: cmd/kubelet-gpu-plugin/udev.go.
use intel_resource_drivers_f.Base.{
  Bool, ◌&&◌, ◌||◌, String, none, some, Dict, lookup, if◌then◌else◌, str_eq, has_prefix,
}
use intel_resource_drivers_f.Gpu.Probe.{Probe}
use intel_resource_drivers_f.Gpu.Node.{NodeState, Env}
use intel_resource_drivers_f.Gpu.Resources.{Helper, publish_resource_slice}
use intel_resource_drivers_f.Gpu.Refresh.{refresh_device_on_driver_event}

-- `udev.Event`, with the fields that are read.
pub record Event : Type 0 where
  pub action : String
  pub properties : Dict String

abbrev pub pci_vendor_id : String
pci_vendor_id = "8086"

abbrev pub pci_vga_class_id : String
pci_vga_class_id = "30000"

abbrev pub pci_display_class_id : String
pci_display_class_id = "38000"

-- A property that is missing is empty.
unfoldable pub property : String → Event → String
property key e = elim (lookup key e.properties) [ none ↦ "" | some value ↦ value ]

-- `supportedEvents`
unfoldable pub supported_event : String → Bool
supported_event action =
    str_eq action "bind"
    || (str_eq action "unbind"
        || (str_eq action "change" || (str_eq action "add" || str_eq action "remove")))

-- Is it an event of an Intel GPU that the driver acts on? The id has no prefix 0x.
unfoldable pub is_watched : Event → Bool
unfolding property supported_event
is_watched e =
    let class = property "PCI_CLASS" e in
    (str_eq class pci_display_class_id || str_eq class pci_vga_class_id)
    && (has_prefix pci_vendor_id (property "PCI_ID" e) && supported_event e.action)

unfoldable pub expected_driver_of : Event → String
unfolding property
expected_driver_of e = if str_eq e.action "bind" then property "DRIVER" e else ""

module _ {W : Type 0} (env : Env W) (probe : Probe W) (helper : Helper W) where
  -- `refreshDeviceOnDriverEvent` of the driver; the errors are only logged.
  unfoldable pub refresh_on_event : Event → NodeState W → NodeState W
  unfolding property expected_driver_of publish_resource_slice refresh_device_on_driver_event
  refresh_on_event e s =
      let (publish, _, s') =
        refresh_device_on_driver_event env probe (property "PCI_SLOT_NAME" e) (expected_driver_of e)
          s in
      if publish then (publish_resource_slice helper s').1 else s'

  -- A round of the loop of `watchDevices`.
  unfoldable pub watch_device : Event → NodeState W → NodeState W
  unfolding is_watched refresh_on_event
  watch_device e s = if is_watched e then refresh_on_event e s else s
