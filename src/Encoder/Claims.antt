-- ===== src/Encoder/Claims.antt =====
-- Texts of the devices of a claim.
use intel_resource_drivers_f.Base.{
  ◌≡◌, refl, ap, ◌∙◌, Bool, true, false, String, List, [], ◌∷◌, map, Option, none, some,
  if◌then◌else◌, str_eq,
}
use intel_resource_drivers_f.Kubelet.{Device}
use intel_resource_drivers_f.Encoder.{pack, unpack, unpack-pack, list_reads_back}

optional_text : Option String → String
optional_text none = pack []
optional_text (some s) = pack (s ∷ [])

optional_of : List String → Option String
optional_of [] = none
optional_of (s ∷ _) = some s

optional_reads_back : (o : Option String) → optional_of (unpack (optional_text o)) ≡ o
unfolding optional_text optional_of
optional_reads_back none = rw unpack-pack refl
optional_reads_back (some s) = rw unpack-pack refl

device_text : Device → String
unfolding optional_text
device_text d = pack (
    pack d.requests
    ∷ d.pool_name
    ∷ d.device_name
    ∷ pack d.cdi_device_ids
    ∷ optional_text d.bus_id
    ∷ [])

abbrev no_device : Device
no_device = record {
  requests = [];
  pool_name = "";
  device_name = "";
  cdi_device_ids = [];
  bus_id = none;
}

device_of : List String → Device
unfolding optional_of
device_of (requests ∷ pool ∷ name ∷ ids ∷ bus ∷ _) = record {
  requests = unpack requests;
  pool_name = pool;
  device_name = name;
  cdi_device_ids = unpack ids;
  bus_id = optional_of (unpack bus);
}
device_of _ = no_device

device_reads_back : (d : Device) → device_of (unpack (device_text d)) ≡ d
unfolding device_text device_of
device_reads_back d =
    ap device_of (
      unpack-pack (
        pack d.requests
        ∷ d.pool_name
        ∷ d.device_name
        ∷ pack d.cdi_device_ids
        ∷ optional_text d.bus_id
        ∷ []))
    ∙ rw (unpack-pack, unpack-pack, optional_reads_back d.bus_id) refl

-- A device with a flag.
flagged_text : Bool × Device → String
unfolding device_text
flagged_text (flag, d) = pack ((if flag then "t" else "f") ∷ device_text d ∷ [])

flagged_of : List String → Bool × Device
unfolding device_of
flagged_of (flag ∷ d ∷ _) = (str_eq flag "t", device_of (unpack d))
flagged_of _ = (false, no_device)

flagged_reads_back : (p : Bool × Device) → flagged_of (unpack (flagged_text p)) ≡ p
unfolding flagged_text flagged_of
flagged_reads_back (true, d) = rw (unpack-pack, device_reads_back d) refl
flagged_reads_back (false, d) = rw (unpack-pack, device_reads_back d) refl

-- A list of devices, alone or with flags.

unfoldable pub devices_text : List Device → String
unfolding device_text
devices_text ds = pack (map device_text ds)

unfoldable pub devices_of : String → List Device
unfolding device_of
devices_of text = map (λ t. device_of (unpack t)) (unpack text)

pub devices_read_back : (ds : List Device) → devices_of (devices_text ds) ≡ ds
unfolding devices_of devices_text
devices_read_back ds = list_reads_back device_text (λ t. device_of (unpack t)) device_reads_back ds

unfoldable pub flagged_devices_text : List (Bool × Device) → String
unfolding flagged_text
flagged_devices_text ps = pack (map flagged_text ps)

unfoldable pub flagged_devices_of : String → List (Bool × Device)
unfolding flagged_of
flagged_devices_of text = map (λ t. flagged_of (unpack t)) (unpack text)

pub flagged_devices_read_back :
    (ps : List (Bool × Device)) → flagged_devices_of (flagged_devices_text ps) ≡ ps
unfolding flagged_devices_of flagged_devices_text
flagged_devices_read_back ps =
    list_reads_back flagged_text (λ t. flagged_of (unpack t)) flagged_reads_back ps
