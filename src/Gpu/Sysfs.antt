-- ===== src/Gpu/Sysfs.antt =====
-- The files under /sys that the GPU driver reads and writes: pkg/vfio/vfio.go, GetVFIODevice and
-- GetIOMMUGroup of pkg/gpu/discovery/vfio.go, and pkg/gpu/drm/drm.go. A path is the list of its components.
use intel_resource_drivers_f.Base.{
  ℕ, ◌+◌, Bool, ◌||◌, not, String, List, [], ◌∷◌, ◌++◌, Option, none, some, if◌then◌else◌, str_eq,
  ◌==◌, numbered,
}
use intel_resource_drivers_f.Gpu.Types.{vfio_pci, xe_vfio_pci}

abbrev pub FilePath : Type 0
FilePath = List String

-- What `os.Readlink` finds: a link, `os.IsNotExist`, or another error.
pub data Link : Type 0 where
  target : FilePath → Link
  missing failed : Link

-- The file system as the code sees it, under the root that `GetSysfsRoot` returns; `W` is its state.
-- `writable` is a successful `os.OpenFile`; a write or a sync that fails may have changed something.
pub record Os (W : Type 0) : Type 0 where
  pub sysfs_root : FilePath
  pub exists : FilePath → W → Bool
  pub read_link : FilePath → W → Link
  pub read_dir : FilePath → W → Option (List String)
  pub writable : FilePath → W → Bool
  pub write_string : FilePath → String → W → Bool × W
  pub sync : FilePath → W → Bool × W

pub data Error : Type 0 where
  module_not_loaded unreadable_link no_such_path open_failed write_failed sync_failed : Error
  no_vfio_device no_iommu_group no_drm_device : Error

unfoldable pub base : FilePath → String
base [] = "."
base (c ∷ []) = c
base (c ∷ d ∷ cs) = base (d ∷ cs)

module _ {W : Type 0} (os : Os W) where
  abbrev pub device_file : String → FilePath → FilePath
  device_file pci_address file = os.sysfs_root ++ ("bus" ∷ "pci" ∷ "devices" ∷ pci_address ∷ file)

  abbrev pub driver_file : String → FilePath → FilePath
  driver_file driver file = os.sysfs_root ++ ("bus" ∷ "pci" ∷ "drivers" ∷ driver ∷ file)

  unfoldable pub ensure_kernel_module_loaded : String → W → Bool
  ensure_kernel_module_loaded module_name w = os.exists (driver_file module_name []) w

  -- `writeSysfsFile`: open, write, sync.
  write_sysfs_file : FilePath → String → W → Option Error × W
  write_sysfs_file path content w =
      let (written, w1) = os.write_string path content w in
      let (synced, w2) = os.sync path w1 in
      if not (os.writable path w)
      then (some Error.open_failed, w)
      else if not written
      then (some Error.write_failed, w1)
      else if not synced
      then (some Error.sync_failed, w2)
      else (none, w2)

  write_existing : FilePath → String → W → Option Error × W
  unfolding write_sysfs_file
  write_existing path content w =
      if not (os.exists path w)
      then (some Error.no_such_path, w)
      else write_sysfs_file path content w

  -- `UnbindDeviceFromKernelDriver`: a device with no driver needs no unbinding.
  unfoldable pub unbind_device : String → W → Option Error × W
  unfolding write_existing
  unbind_device pci_address w = elim (os.read_link (device_file pci_address ("driver" ∷ [])) w) [
    | Link.missing ↦ (none, w)
    | Link.failed ↦ (some Error.unreadable_link, w)
    | Link.target link ↦ write_existing (driver_file (base link) ("unbind" ∷ [])) pci_address w
  ]

  -- `BindDeviceToDriver`: a DRM driver needs no override, which is cleared by a newline.
  abbrev pub override_of : String → String
  override_of driver = if str_eq driver vfio_pci || str_eq driver xe_vfio_pci then driver else "\n"

  unfoldable pub bind_device : String → String → W → Option Error × W
  unfolding write_existing
  bind_device pci_address driver w =
      let (overridden, w1) =
        write_existing (device_file pci_address ("driver_override" ∷ [])) (override_of driver) w in
      let bound = write_existing (driver_file driver ("bind" ∷ [])) pci_address w1 in
      elim overridden [ some e ↦ (some e, w1) | none ↦ bound ]

  unfoldable pub get_iommu_group : String → W → Option String
  get_iommu_group pci_address w =
      elim (os.read_link (device_file pci_address ("iommu_group" ∷ [])) w) [
        | Link.target link ↦ some (base link)
        | Link.missing ↦ none
        | Link.failed ↦ none
      ]

  -- The loop of `GetVFIODevice`: the last match, and how many there are.
  vfio_from : String → ℕ → List String → String × ℕ
  vfio_from found n [] = (found, n)
  vfio_from found n (name ∷ names) =
      let hit = numbered "vfio" none name in
      vfio_from (if hit then name else found) (if hit then n + 1 else n) names

  unfoldable pub get_vfio_device : String → W → Option String
  unfolding vfio_from
  get_vfio_device pci_address w = elim (os.read_dir (device_file pci_address ("vfio-dev" ∷ [])) w) [
    | none ↦ none
    | some names ↦ let (found, n) = vfio_from "" 0 names in if n == 1 then some found else none
  ]

  -- The loop of `DeduceCardAndRenderDNames`: the last card and the last render node.
  unfoldable pub drm_from : String → String → List String → String × String
  drm_from card render_d [] = (card, render_d)
  drm_from card render_d (name ∷ names) =
      let is_card = numbered "card" (some 3) name in
      let is_render = numbered "renderD" (some 3) name in
      drm_from (if is_card then name else card)
        (if is_card then render_d else if is_render then name else render_d) names

  unfoldable pub deduce_card_and_render_d_names : FilePath → W → Option (String × String)
  unfolding drm_from
  deduce_card_and_render_d_names sysfs_device_dir w =
      elim (os.read_dir (sysfs_device_dir ++ ("drm" ∷ [])) w) [
        | none ↦ none
        | some names ↦
            let (card, render_d) = drm_from "" "" names in
            if str_eq card "" then none else some (card, render_d)
      ]
