-- ===== src/Gpu/Cdi.antt =====
-- pkg/gpu/cdihelpers/cdihelpers.go: the CDI specs that tell a container runtime which device nodes a GPU
-- has. The CDI cache is an interface; a spec that it hands out is changed in place, then written.
pub mod Removal
use Prim.Native.String.{◌++◌ as str_append}
use intel_resource_drivers_f.Base.{
  ◌≡◌, Bool, true, false, ◌||◌, not, String, List, [], ◌∷◌, ◌++◌, map, Option, none, some, Dict,
  keep, any, if◌then◌else◌, str_eq,
}
use intel_resource_drivers_f.Gpu.Types.{
  DeviceInfo, DevicesInfo, cdi_kind, cdi_mei_kind, is_vfio_bound,
}
use intel_resource_drivers_f.Gpu.Sysfs.{FilePath, Os}

-- A character device, by its path in the container and on the host.
pub record DeviceNode : Type 0 where
  pub path : FilePath
  pub host_path : FilePath

-- A CDI device with its container edits: device nodes, and bind mounts from host to container.
pub record CdiDevice : Type 0 where
  pub name : String
  pub device_nodes : List DeviceNode
  pub mounts : List (FilePath × FilePath)

-- `spec_name` is the base name of the spec's file, `stem` that name without its extension.
pub record Spec : Type 0 where
  pub kind : String
  pub version : String
  pub spec_name : String
  pub stem : String
  pub devices : List CdiDevice

-- The cache of tags.cncf.io/container-device-interface, and what it says of a spec. The answers of
-- `write_spec` and `remove_spec` are true where they succeed.
pub record Registry (W : Type 0) : Type 0 where
  pub devfs_root : FilePath
  pub vendor_specs : W → List Spec
  pub write_spec : Spec → String → W → Bool × W
  pub remove_spec : String → W → Bool × W
  pub minimum_required_version : Spec → Option String
  pub generate_name_for_spec : Spec → Option String

-- `path.Join` drops an empty component.
component : String → FilePath
component s = if str_eq s "" then [] else s ∷ []

-- `path.Join` of two roots and one name below both.
node : FilePath → FilePath → FilePath → DeviceNode
node container host below = record { path = container ++ below; host_path = host ++ below }

of_kind : String → List Spec → List Spec
of_kind kind = keep (λ s. str_eq s.kind kind)

new_spec : String → Spec
new_spec kind = record { kind = kind; version = ""; spec_name = ""; stem = ""; devices = [] }

-- The devices of a spec without one name.
unfoldable pub without : String → Spec → Spec
without name spec = record spec { devices = keep (λ d. not (str_eq d.name name)) spec.devices }

module _ {W : Type 0} (os : Os W) (cdi : Registry W) where
  unfoldable pub get_gpu_specs : W → List Spec
  unfolding of_kind
  get_gpu_specs w = of_kind cdi_kind (cdi.vendor_specs w)

  unfoldable pub get_mei_specs : W → List Spec
  unfolding of_kind
  get_mei_specs w = of_kind cdi_mei_kind (cdi.vendor_specs w)

  -- `writeSpec`: an empty spec is not written.
  unfoldable pub write_new_spec : Spec → W → Bool × W
  write_new_spec spec w = elim spec.devices [
    | [] ↦ (true, w)
    | _ ∷ _ ↦ elim (cdi.minimum_required_version spec) [
      | none ↦ (false, w)
      | some v ↦
          let versioned = record spec { version = v } in
          elim (cdi.generate_name_for_spec versioned) [
            | none ↦ (false, w)
            | some name ↦ cdi.write_spec versioned name w
          ]
    ]
  ]

  vfio_edits : DeviceInfo → List DeviceNode
  unfolding node component
  vfio_edits g =
      let host = cdi.devfs_root ++ ("vfio" ∷ []) in
      node ("dev" ∷ "vfio" ∷ []) host (component g.iommu_group)
      ∷ node ("dev" ∷ "vfio" ∷ []) host ("vfio" ∷ [])
      ∷ node ("dev" ∷ "vfio" ∷ []) host ("devices" ∷ component g.vfio_device)
      ∷ []

  -- The render node is optional.
  drm_edits : DeviceInfo → List DeviceNode
  unfolding node component
  drm_edits g =
      let host = cdi.devfs_root ++ ("dri" ∷ []) in
      node ("dev" ∷ "dri" ∷ []) host (component g.card_name)
      ∷ (if str_eq g.render_d_name ""
          then []
          else node ("dev" ∷ "dri" ∷ []) host (component g.render_d_name) ∷ [])

  by_path_mount : DeviceInfo → String → W → List (FilePath × FilePath)
  by_path_mount g suffix w =
      let name = str_append "pci-" (str_append g.pci_address (str_append "-" suffix)) in
      let host = cdi.devfs_root ++ ("dri" ∷ "by-path" ∷ name ∷ []) in
      if os.exists host w then (host, "dev" ∷ "dri" ∷ "by-path" ∷ name ∷ []) ∷ [] else []

  -- `addDeviceContainerEdits`
  unfoldable pub cdi_device : DeviceInfo → W → CdiDevice
  unfolding vfio_edits drm_edits by_path_mount
  cdi_device g w =
      if is_vfio_bound g
      then record { name = g.uid; device_nodes = vfio_edits g; mounts = [] }
      else record {
        name = g.uid;
        device_nodes = drm_edits g;
        mounts = by_path_mount g "card" w ++ by_path_mount g "render" w;
      }

  -- `addDevicesToSpec`
  unfoldable pub add_devices_to_spec : DevicesInfo → Spec → W → Spec
  unfolding cdi_device
  add_devices_to_spec devices spec w = record spec {
    devices = spec.devices ++ map (λ e. cdi_device e.1 w) devices;
  }

  -- `addMeiDevicesToSpec`, with the names seen so far.
  mei_devices : List String → DevicesInfo → List CdiDevice
  unfolding node
  mei_devices seen [] = []
  mei_devices seen ((_, g) ∷ devices) =
      let rest = mei_devices (g.mei_name ∷ seen) devices in
      let skip = mei_devices seen devices in
      if str_eq g.mei_name "" || any (λ m. str_eq m g.mei_name) seen
      then skip
      else record {
        name = g.mei_name;
        device_nodes = node ("dev" ∷ []) cdi.devfs_root (g.mei_name ∷ []) ∷ [];
        mounts = [];
      }
        ∷ rest

  -- The loop that removes old specs, up to the first failure.
  remove_specs : List Spec → W → Bool × W
  remove_specs [] w = (true, w)
  remove_specs (spec ∷ specs) w =
      let (removed, w') = cdi.remove_spec spec.stem w in
      elim removed [ false ↦ (false, w') | true ↦ remove_specs specs w' ]

  replace_gpu_cdi_specs : DevicesInfo → W → Bool × W
  unfolding remove_specs get_gpu_specs add_devices_to_spec write_new_spec new_spec
  replace_gpu_cdi_specs devices w =
      let (removed, w') = remove_specs (get_gpu_specs w) w in
      elim removed [
        | false ↦ (false, w')
        | true ↦ write_new_spec (add_devices_to_spec devices (new_spec cdi_kind) w') w'
      ]

  replace_mei_cdi_specs : DevicesInfo → W → Bool × W
  unfolding remove_specs get_mei_specs mei_devices write_new_spec new_spec
  replace_mei_cdi_specs devices w =
      let (removed, w') = remove_specs (get_mei_specs w) w in
      elim removed [
        | false ↦ (false, w')
        | true ↦
            write_new_spec (record (new_spec cdi_mei_kind) { devices = mei_devices [] devices }) w'
      ]

  -- `AddDetectedDevicesToCDIRegistry`
  unfoldable pub add_detected_devices : DevicesInfo → W → Bool × W
  unfolding replace_gpu_cdi_specs replace_mei_cdi_specs
  add_detected_devices devices w =
      let (replaced, w') = replace_gpu_cdi_specs devices w in
      elim replaced [ false ↦ (false, w') | true ↦ replace_mei_cdi_specs devices w' ]

  -- `AddGPUDevice`: into the first GPU spec, or a new one.
  first_or_new : List Spec → Spec
  unfolding new_spec
  first_or_new [] = new_spec cdi_kind
  first_or_new (spec ∷ _) = spec

  unfoldable pub add_gpu_device : DeviceInfo → W → Bool × W
  unfolding first_or_new get_gpu_specs add_devices_to_spec write_new_spec
  add_gpu_device g w =
      write_new_spec (add_devices_to_spec ((g.uid, g) ∷ []) (first_or_new (get_gpu_specs w)) w) w

  -- The inner loop of `RemoveDevices`, over the specs, up to the first failing write.
  remove_one : String → List Spec → W → Bool × List Spec × W
  unfolding without
  remove_one name [] w = (true, [], w)
  remove_one name (spec ∷ specs) w =
      let (written, w1) = cdi.write_spec (without name spec) spec.spec_name w in
      let (done, specs', w2) = remove_one name specs w1 in
      elim written [
        | false ↦ (false, without name spec ∷ specs, w1)
        | true ↦ (done, without name spec ∷ specs', w2)
      ]

  -- The outer loop, over the names to remove.
  unfoldable pub remove_all : List String → List Spec → W → Bool × List Spec × W
  unfolding remove_one
  remove_all [] specs w = (true, specs, w)
  remove_all (name ∷ names) specs w =
      let (done, specs', w') = remove_one name specs w in
      elim done [ false ↦ (false, specs', w') | true ↦ remove_all names specs' w' ]

  -- `RemoveDevices`, with the specs as it leaves them. Without a GPU spec no loop does anything.
  unfoldable pub remove_devices : List String → W → Bool × List Spec × W
  unfolding remove_all get_gpu_specs
  remove_devices names w = elim (get_gpu_specs w) [
    | [] ↦ (true, [], w)
    | spec ∷ specs ↦ remove_all names (spec ∷ specs) w
  ]

  -- The loop of `UpdateGPUDevices` that adds: a device with no driver is passed over.
  add_updated : List DeviceInfo → W → Bool × W
  unfolding add_gpu_device
  add_updated [] w = (true, w)
  add_updated (g ∷ gs) w =
      let (added, w') = add_gpu_device g w in
      let skip = add_updated gs w in
      let next = add_updated gs w' in
      if str_eq g.current_driver ""
      then skip
      else (elim added [ false ↦ (false, w') | true ↦ next ])

  unfoldable pub update_gpu_devices : List DeviceInfo → W → Bool × W
  unfolding add_updated remove_devices
  update_gpu_devices gs w =
      let (removed, _, w') = remove_devices (map (λ g. g.uid) gs) w in
      elim removed [ false ↦ (false, w') | true ↦ add_updated gs w' ]
