-- ===== src/Gaudi/Cdi.antt =====
-- pkg/gaudi/cdihelpers/cdihelpers.go: the CDI specs of the Gaudi devices, and the "blank" CDI device that
-- carries the environment of one claim. The CDI cache is an interface.
pub mod Blank
pub mod RoundTrip
use Prim.Native.String.{◌++◌ as str_append}
use intel_resource_drivers_f.Base.{
  ℕ, zero, suc, Bool, true, false, not, String, List, [], ◌∷◌, ◌++◌, map, Option, none, some, keep,
  if◌then◌else◌, str_eq, ◌==◌, decimal, length, FilePath,
}
use intel_resource_drivers_f.Gaudi.Types.{DeviceInfo, DevicesInfo, cdi_kind, uverbs_missing_idx}

-- A character device, by its path in the container and on the host.
pub record DeviceNode : Type 0 where
  pub path : FilePath
  pub host_path : FilePath

pub record Hook : Type 0 where
  pub hook_name : String
  pub path : String
  pub args : List String
  pub env : List String

-- `Device` of the CDI specification, with the edits that the driver makes; a mount binds a host path to
-- itself.
pub record CdiDevice : Type 0 where
  pub name : String
  pub device_nodes : List DeviceNode
  pub env : List String
  pub hooks : List Hook
  pub mounts : List String

-- `spec_name` is the base name of the spec's file, `path` that file's path.
pub record Spec : Type 0 where
  pub kind : String
  pub version : String
  pub spec_name : String
  pub path : String
  pub devices : List CdiDevice

-- The cache of tags.cncf.io/container-device-interface. `configure` refreshes it; `get_device` finds the spec of a qualified device
-- name; `put` is a change in place of a spec that the cache handed out, and `put_env` one of the edits
-- of a device that it handed out, with the device's spec. The Boolean answers are true on success.
pub record Registry (W : Type 0) : Type 0 where
  pub accel_dev_path : FilePath
  pub infiniband_dev_path : FilePath
  pub configure : W → Bool × W
  pub gaudinet_exists : W → Bool
  pub vendor_specs : W → List Spec
  pub get_device : String → W → Option Spec
  pub put : Spec → W → W
  pub put_env : String → List String → W → Spec × W
  pub write_spec : Spec → String → W → Bool × W
  pub remove_spec : String → W → Bool × W
  pub minimum_required_version : Spec → Option String
  pub generate_name_for_spec : Spec → Option String

abbrev pub gaudinet_path : String
gaudinet_path = "/etc/habanalabs/gaudinet.json"

-- `cdiparser.QualifiedName` of a device of this driver's kind.
abbrev pub qualified_name : String → String
qualified_name name = str_append cdi_kind (str_append "=" name)

numbered_node : FilePath → FilePath → String → ℕ → DeviceNode
numbered_node container host prefix idx =
    let name = str_append prefix (decimal idx) in
    record { path = container ++ (name ∷ []); host_path = host ++ (name ∷ []) }

-- The zero value of a CDI device.
abbrev pub zero_device : CdiDevice
zero_device = record { name = ""; device_nodes = []; env = []; hooks = []; mounts = [] }

-- A slice of `n` zero values.
unfoldable pub zero_devices : ℕ → List CdiDevice
zero_devices zero = []
zero_devices (suc n) = zero_device ∷ zero_devices n

-- The loop of `DeleteBlankDevices` that writes the kept devices one by one into a slice of `slots`
-- places; past its end it panics, which is `none`.
unfoldable pub filter_into : String → ℕ → List CdiDevice → Option (List CdiDevice)
unfolding zero_devices
filter_into claim_uid slots [] = some (zero_devices slots)
filter_into claim_uid zero (d ∷ ds) =
    let rest = filter_into claim_uid zero ds in if str_eq d.name claim_uid then rest else none
filter_into claim_uid (suc slots) (d ∷ ds) =
    let skip = filter_into claim_uid (suc slots) ds in
    let next = filter_into claim_uid slots ds in
    if str_eq d.name claim_uid
    then skip
    else (elim next [ none ↦ none | some kept ↦ some (d ∷ kept) ])

-- The slice has one place less than the spec has devices; of no devices, `make` panics.
unfoldable pub filtered_devices : String → List CdiDevice → Option (List CdiDevice)
unfolding filter_into
filtered_devices claim_uid [] = none
filtered_devices claim_uid (d ∷ ds) = filter_into claim_uid (length ds) (d ∷ ds)

-- How a call ends that may panic.
pub data Ending : Type 0 where
  done failed panicked : Ending

abbrev pub ending : Bool → Ending
ending true = Ending.done
ending false = Ending.failed

module _ {W : Type 0} (cdi : Registry W) where
  unfoldable pub get_gaudi_specs : W → List Spec
  get_gaudi_specs w = keep (λ s. str_eq s.kind cdi_kind) (cdi.vendor_specs w)

  unfoldable pub new_container_edits_device_nodes : ℕ → ℕ → List DeviceNode
  unfolding numbered_node
  new_container_edits_device_nodes device_idx uverbs_idx =
      let accel = "dev" ∷ "accel" ∷ [] in
      numbered_node accel cdi.accel_dev_path "accel" device_idx
      ∷ numbered_node accel cdi.accel_dev_path "accel_controlD" device_idx
      ∷ (if uverbs_idx == uverbs_missing_idx
          then []
          else numbered_node ("dev" ∷ "infiniband" ∷ []) cdi.infiniband_dev_path "uverbs" uverbs_idx
            ∷ [])

  -- `writeSpec`: an empty spec is removed. `changed` says what its new version does to the cache.
  unfoldable pub write_spec : (Spec → W → W) → Spec → String → W → Bool × W
  write_spec changed spec spec_name w = elim (cdi.minimum_required_version spec) [
    | none ↦ (false, w)
    | some v ↦
        let versioned = record spec { version = v } in
        let w' = changed versioned w in
        elim spec.devices [
          | [] ↦ cdi.remove_spec spec_name w'
          | _ ∷ _ ↦ cdi.write_spec versioned spec_name w'
        ]
  ]

  cdi_device : String × DeviceInfo → CdiDevice
  unfolding new_container_edits_device_nodes
  cdi_device (name, g) = record {
    name = name;
    device_nodes = new_container_edits_device_nodes g.device_idx g.uverbs_idx;
    env = [];
    hooks = [];
    mounts = [];
  }

  -- `addDevicesToNewSpec`, with `addDevicesToSpecAndWrite`.
  unfoldable pub add_devices_to_new_spec : DevicesInfo → W → Bool × W
  unfolding write_spec cdi_device
  add_devices_to_new_spec devices w =
      let spec : Spec = record {
        kind = cdi_kind;
        version = "";
        spec_name = "";
        path = "";
        devices = [];
      } in
      elim (cdi.generate_name_for_spec spec) [
        | none ↦ (false, w)
        | some spec_name ↦
            write_spec (λ _ u. u) (record spec { devices = map cdi_device devices }) spec_name w
      ]

  -- The loop that removes the old specs, up to the first failure.
  remove_specs : List Spec → W → Bool × W
  remove_specs [] w = (true, w)
  remove_specs (spec ∷ specs) w =
      let (removed, w') = cdi.remove_spec spec.path w in
      elim removed [ false ↦ (false, w') | true ↦ remove_specs specs w' ]

  unfoldable pub add_detected_devices_to_cdi_registry : DevicesInfo → W → Bool × W
  unfolding remove_specs get_gaudi_specs add_devices_to_new_spec
  add_detected_devices_to_cdi_registry devices w =
      let (removed, w') = remove_specs (get_gaudi_specs w) w in
      elim removed [ false ↦ (false, w') | true ↦ add_devices_to_new_spec devices w' ]

  -- The hook, and the mount if its file is there, that `NewBlankDevice` adds.
  unfoldable pub with_hook : String → CdiDevice → W → CdiDevice
  with_hook hook_path d w = record d {
    hooks =
        record {
          hook_name = "createRuntime";
          path = hook_path;
          args = "habana-container-hook" ∷ "createRuntime" ∷ [];
          env = "PATH=/usr/local/sbin:/usr/local/bin:/usr/sbin:/usr/bin:/sbin:/bin:/usr/bin" ∷ [];
        }
        ∷ [];
    mounts = if cdi.gaudinet_exists w then gaudinet_path ∷ [] else d.mounts;
  }

  -- `NewBlankDevice`: into the first spec of the vendor.
  unfoldable pub new_blank_device : CdiDevice → String → W → Bool × W
  unfolding with_hook write_spec
  new_blank_device d hook_path w = elim (cdi.vendor_specs w) [
    | [] ↦ (false, w)
    | spec ∷ _ ↦
        let spec' = record spec { devices = spec.devices ++ (with_hook hook_path d w ∷ []) } in
        write_spec cdi.put spec' spec.spec_name (cdi.put spec' w)
  ]

  unfoldable pub delete_blank_devices : String → W → Ending × W
  unfolding filtered_devices write_spec
  delete_blank_devices claim_uid w = elim (cdi.get_device (qualified_name claim_uid) w) [
    | none ↦ (Ending.done, w)
    | some spec ↦ elim (filtered_devices claim_uid spec.devices) [
      | none ↦ (Ending.panicked, w)
      | some kept ↦
          let spec' = record spec { devices = kept } in
          let (written, w') = write_spec cdi.put spec' spec.spec_name (cdi.put spec' w) in
          (ending written, w')
    ]
  ]
