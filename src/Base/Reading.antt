-- ===== src/Base/Reading.antt =====
-- The files under /sys as discovery reads them, at one moment. A path is the list of its components.
use Prim.Native.Char.{code}
use Prim.Native.String.{String}
use mathlib.Core.Bool.{Bool, false, ◌&&◌}
use mathlib.Core.List.{List, []}
use mathlib.Core.Option.{Option, none, some}
use intel_resource_drivers_f.Base.Tests.{leb, keep}
use intel_resource_drivers_f.Base.Text.{strip_prefix}

abbrev pub FilePath : Type 0
FilePath = List String

-- `os.ReadDir`, `os.ReadFile` and `os.Readlink`, `none` where they fail; `os.ReadDir` sorts its names.
pub record Tree : Type 0 where
  pub sysfs_root : FilePath
  pub read_dir : FilePath → Option (List String)
  pub read_file : FilePath → Option String
  pub read_link : FilePath → Option FilePath

starts_with_digit : String → Bool
starts_with_digit String.[] = false
starts_with_digit (String.◌∷◌ c s) = leb 48 (code c) && leb (code c) 57

-- Does the name match the glob `prefix[0-9]*`?
unfoldable pub globbed : String → String → Bool
unfolding starts_with_digit
globbed prefix name = elim (strip_prefix prefix name) [
  | none ↦ false
  | some rest ↦ starts_with_digit rest
]

-- `filepath.Glob` of that pattern in a directory; of one that cannot be read there are no matches.
unfoldable pub glob : Tree → FilePath → String → List String
unfolding globbed
glob tree dir prefix = elim (tree.read_dir dir) [
  | none ↦ []
  | some names ↦ keep (globbed prefix) names
]
