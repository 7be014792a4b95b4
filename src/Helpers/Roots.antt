-- ===== src/Helpers/Roots.antt =====
-- `GetSysfsRoot` and `GetDevfsRoot` of pkg/helpers/device.go. The environment and the file system are an
-- interface.
use intel_resource_drivers_f.Base.{
  Bool, String, [], ◌∷◌, ◌++◌, Option, none, some, if◌then◌else◌, FilePath,
}

pub record Surroundings (W : Type 0) : Type 0 where
  pub lookup_env : String → W → Option FilePath
  pub stat : FilePath → W → Bool

module _ {W : Type 0} (around : Surroundings W) where
  -- The root that a variable names, if the path is there below it.
  root_or : String → FilePath → FilePath → W → FilePath
  root_or variable default path w = elim (around.lookup_env variable w) [
    | none ↦ default
    | some root ↦ if around.stat (root ++ path) w then root else default
  ]

  unfoldable pub get_sysfs_root : FilePath → W → FilePath
  unfolding root_or
  get_sysfs_root path w = root_or "SYSFS_ROOT" ("sys" ∷ []) path w

  unfoldable pub get_devfs_root : FilePath → W → FilePath
  unfolding root_or
  get_devfs_root path w = root_or "DEVFS_ROOT" ("dev" ∷ []) path w
