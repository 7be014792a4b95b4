-- ===== src/Helpers/Uids.antt =====
-- The device UIDs of pkg/helpers/device.go: from the PCI address and id of a device, and back.
pub mod RoundTrip
use Prim.Native.Char.{Char, code}
use Prim.Native.String.{◌++◌ as str_append, len, slice}
use intel_resource_drivers_f.Base.{ℕ, zero, suc, ◌+◌, String, if◌then◌else◌, ◌==◌, replace_all}

-- A device id of four digits gets its prefix.
unfoldable pub prefixed : String → String
prefixed id = if len id == 4 then str_append "0x" id else id

unfoldable pub device_uid_from_pci_info : String → String → String
unfolding prefixed
device_uid_from_pci_info pci_address pci_id =
    str_append (replace_all b'.' "-" (replace_all b':' "-" pci_address))
      (str_append "-" (prefixed pci_id))

-- `len("0000:00:00.0")`
abbrev pub pci_address_length : ℕ
pci_address_length = 12

-- `strings.Replace(s, old, new, n)` for one character.
unfoldable pub replace : ℕ → Char → ℕ → String → String
replace old new n String.[] = String.[]
replace old new zero (String.◌∷◌ c s) = String.◌∷◌ c s
replace old new (suc n) (String.◌∷◌ c s) =
    let here = String.◌∷◌ new (replace old new n s) in
    let later = String.◌∷◌ c (replace old new (suc n) s) in if code c == old then here else later

-- `PciInfoFromDeviceUID`; a UID shorter than an address with its hyphen, at which Go panics, reads as one
-- that ends there.
unfoldable pub pci_info_from_device_uid : String → String × String
unfolding replace
pci_info_from_device_uid device_uid = (
  replace b'-' "." 1 (replace b'-' ":" 2 (slice device_uid 0 pci_address_length)),
  slice device_uid (pci_address_length + 1) (len device_uid),
)
