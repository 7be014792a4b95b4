-- ===== src/Qat/Sysfs.antt =====
-- Reads and writes of sysfs in pkg/qat/device/device.go: `read`, `write`, `syncConfig`, `up`,
-- `down`, `update` and `enableVFIO`. A path is the list of its components.
pub mod Triple
pub mod Frame
use intel_resource_drivers_f.Base.{
  ℕ, ℤ, Bool, true, false, String, List, [], ◌∷◌, ◌++◌, Option, none, some, Result, ok, err,
  trim_space, atoi, if◌then◌else◌, length, ltb,
}
use intel_resource_drivers_f.Qat.Services.{string_to_services}
use intel_resource_drivers_f.Qat.Types.{
  State, VfDriver, VfDevice, PfDevice, Error, state_string, string_to_state, string_to_driver,
}

abbrev pub FilePath : Type 0
FilePath = List String

-- What `os.WriteFile` may return beside nil: an `*os.PathError`, or another error.
pub data WriteError : Type 0 where
  path_error other_error : WriteError

-- The file system as the code sees it; `W` is its state. A write may change it also when it fails.
pub record Os (W : Type 0) : Type 0 where
  pub sysfs_root : FilePath
  pub read_file : FilePath → W → Option String
  pub write_file : FilePath → String → W → Option WriteError × W
  pub glob : FilePath → W → Option (List FilePath)
  pub eval_symlinks : FilePath → W → Option FilePath

-- `filepath.Base`
unfoldable pub base : FilePath → String
base [] = "."
base (c ∷ []) = c
base (c ∷ d ∷ cs) = base (d ∷ cs)

abbrev pub qat_state : FilePath
qat_state = "qat" ∷ "state" ∷ []

abbrev pub qat_services : FilePath
qat_services = "qat" ∷ "cfg_services" ∷ []

abbrev pub num_vfs_file : FilePath
num_vfs_file = "sriov_numvfs" ∷ []

abbrev pub total_vfs_file : FilePath
total_vfs_file = "sriov_totalvfs" ∷ []

-- A `PFDevice` with its own address, beside the file system.
pub record Host (W : Type 0) : Type 0 where
  pub self : ℕ
  pub pf : PfDevice
  pub world : W

-- An action of a PF: it may fail, and what it changed before that stays changed.
abbrev pub M : Type 0 → Type 0 → Type 0
M W A = Host W → Result Error A × Host W

module _ {W A : Type 0} where
  abbrev pub pure : A → M W A
  pure a h = (ok a, h)

  abbrev pub raise : Error → M W A
  raise e h = (err e, h)

  abbrev pub lift : Option A → Error → M W A
  lift none e h = (err e, h)
  lift (some a) e h = (ok a, h)

module _ {W A B : Type 0} where
  abbrev pub continue : Result Error A → (A → M W B) → M W B
  continue (ok a) f h = f a h
  continue (err e) f h = (err e, h)

  infixl 5 ◌>>=◌ ◌>>◌
  abbrev pub ◌>>=◌ : M W A → (A → M W B) → M W B
  ◌>>=◌ m f h = let (r, h') = m h in continue r f h'

  abbrev pub ◌>>◌ : M W A → M W B → M W B
  m >> n = m >>= λ _. n

module _ {W : Type 0} where
  abbrev pub get_pf : M W PfDevice
  get_pf h = (ok h.pf, h)

  abbrev pub put_pf : (PfDevice → PfDevice) → M W (Unit {0})
  put_pf f h = (ok tt, record h { pf = f h.pf })

module _ {W : Type 0} (os : Os W) where
  abbrev pub sysfs_device_path : FilePath
  sysfs_device_path = os.sysfs_root ++ ("bus" ∷ "pci" ∷ "devices" ∷ [])

  abbrev pub sysfs_driver_path : FilePath
  sysfs_driver_path = os.sysfs_root ++ ("bus" ∷ "pci" ∷ "drivers" ∷ [])

  abbrev pub file_of : String → FilePath → FilePath
  file_of device file = sysfs_device_path ++ (device ∷ file)

  unfoldable pub read : FilePath → M W String
  read [] h = (err Error.missing_file_name, h)
  read (c ∷ cs) h = elim (os.read_file (file_of h.pf.device (c ∷ cs)) h.world) [
    | none ↦ (err Error.cannot_read, h)
    | some val ↦ (ok (trim_space val), h)
  ]

  after_write : Option WriteError → Result Error (Unit {0})
  after_write none = ok tt
  after_write (some e) = err Error.write_failed

  unfoldable pub write : FilePath → String → M W (Unit {0})
  unfolding after_write
  write file value h =
      let (e, w) = os.write_file (file_of h.pf.device file) value h.world in
      (after_write e, record h { world = w })

  unfoldable pub get_services : M W ℕ
  unfolding read
  get_services = do
    servicestr ← read qat_services
    lift (string_to_services servicestr) Error.unsupported_service

  -- The fields are set at the end, once every file is read.
  unfoldable pub sync_config : M W (Unit {0})
  unfolding read get_services
  sync_config = do
    qatstate ← read qat_state
    state ← lift (string_to_state qatstate) Error.unknown_state
    qatservices ← get_services
    numvfs ← read num_vfs_file
    vfs ← lift (atoi numvfs) Error.not_a_number
    totalvfs ← read total_vfs_file
    total ← lift (atoi totalvfs) Error.not_a_number
    put_pf
        (λ p. record p { state = state; services = qatservices; num_vfs = vfs; total_vfs = total })

  -- `p.write(qatState, …)` and the new state, unless the PF has that state.
  set_state : State → M W (Unit {0})
  unfolding write
  set_state state = do
    write qat_state (state_string state)
    put_pf (λ p. record p { state = state })

  unfoldable pub up : M W (Unit {0})
  unfolding set_state
  up h = elim h.pf.state [ State.up ↦ (ok tt, h) | State.down ↦ set_state State.up h ]

  unfoldable pub down : M W (Unit {0})
  unfolding set_state
  down h =
      if ltb 0 (length h.pf.allocated_devices)
      then (err Error.devices_allocated, h)
      else elim h.pf.state [ State.down ↦ (ok tt, h) | State.up ↦ set_state State.down h ]

  vf_driver_of : VfDevice → W → VfDriver
  vf_driver_of v w = elim (os.eval_symlinks (file_of v.vf_device ("driver" ∷ [])) w) [
    | none ↦ v.vf_driver
    | some driver ↦ string_to_driver (base driver)
  ]

  vf_iommu_of : VfDevice → W → String
  vf_iommu_of v w = elim (os.eval_symlinks (file_of v.vf_device ("iommu_group" ∷ [])) w) [
    | none ↦ v.vf_iommu
    | some iommu ↦ base iommu
  ]

  -- `update` of a VF: what cannot be read stays as it was.
  unfoldable pub update : VfDevice → W → VfDevice
  unfolding vf_driver_of vf_iommu_of
  update v w = record v { vf_driver = vf_driver_of v w; vf_iommu = vf_iommu_of v w }

  -- `unbindVFIODriver` takes a `PathError` for "the device was not bound".
  unbind_result : Option WriteError → Option WriteError
  unbind_result none = none
  unbind_result (some WriteError.path_error) = none
  unbind_result (some WriteError.other_error) = some WriteError.other_error

  -- The three writes of `enableVFIO`: `override`, `unbind` and `bind`, up to the first failure.
  unfoldable pub enable_writes : VfDevice → W → Option WriteError × W
  unfolding unbind_result
  enable_writes v w =
      let (overridden, w1) =
        os.write_file (file_of v.vf_device ("driver_override" ∷ [])) "vfio-pci" w in
      let (unbound, w2) =
        os.write_file (sysfs_driver_path ++ ("vfio-pci" ∷ "unbind" ∷ [])) v.vf_device w1 in
      let (bound, w3) =
        os.write_file (sysfs_driver_path ++ ("vfio-pci" ∷ "bind" ∷ [])) v.vf_device w2 in
      elim overridden [
        | some e ↦ (some e, w1)
        | none ↦ elim (unbind_result unbound) [ some e ↦ (some e, w2) | none ↦ (bound, w3) ]
      ]

  unfoldable pub enable_vfio : VfDevice → W → Option WriteError × VfDevice × W
  unfolding enable_writes
  enable_vfio v w =
      let (e, w') = enable_writes v w in
      elim e [ some e' ↦ (some e', v, w') | none ↦ (none, update v w', w') ]
