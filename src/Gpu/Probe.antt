-- ===== src/Gpu/Probe.antt =====
-- What the discovery of pkg/gpu/discovery and pkg/gpu/mei asks of the system, besides what `Os` has.
use intel_resource_drivers_f.Base.{ℕ, ℤ, String, List, Option}
use intel_resource_drivers_f.Gpu.Sysfs.{FilePath}

-- What discovery reads besides the calls of `Os`: a whole file, the path behind links, the root complex of
-- a device, and what the two DRM drivers answer to the queries of a card: its size, then the bytes.
pub record Probe (W : Type 0) : Type 0 where
  pub read_file : FilePath → W → Option String
  pub eval_symlinks : FilePath → W → Option FilePath
  pub pcie_root : String → W → Option String
  pub xe_query_size : String → W → Option ℕ
  pub xe_query_data : String → W → Option (List ℕ)
  pub i915_query_length : String → W → Option ℤ
  pub i915_query_data : String → W → Option (List ℕ)
