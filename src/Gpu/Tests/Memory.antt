-- ===== src/Gpu/Tests/Memory.antt =====
-- A card of the xe driver with two regions of memory.
use intel_resource_drivers_f.Base.{
  ℕ, zero, suc, ◌≡◌, refl, List, [], ◌∷◌, ◌++◌, none, some, length, arith,
}
use intel_resource_drivers_f.Gpu.Probe.{Probe}
use intel_resource_drivers_f.Gpu.Memory.{get_xe_device_memory_mib}
use intel_resource_drivers_f.Gpu.Memory.Bytes.{bytes}
use intel_resource_drivers_f.Gpu.Memory.Layout.{Region, all_encoded, sum_of, xe_memory_lem}
use intel_resource_drivers_f.Gpu.Tests.{Sys}

abbrev zeros : ℕ → List ℕ
zeros zero = []
zeros (suc n) = 0 ∷ zeros n

-- System memory, and 16 GiB of VRAM.
abbrev regions : List Region
regions =
    record { mem_class = 0; between = zeros 6; size = 33554432; after = zeros 72 }
    ∷ record { mem_class = 1; between = zeros 6; size = 17179869184; after = zeros 72 }
    ∷ []

-- The card counts three regions, of which the last is cut off.
abbrev buffer : List ℕ
buffer = (bytes 4 3 ++ zeros 4) ++ (all_encoded regions ++ zeros 5)

abbrev probe : Probe Sys
probe = record {
  read_file = λ _ _. none;
  eval_symlinks = λ _ _. none;
  pcie_root = λ _ _. none;
  xe_query_size = λ _ _. some (length buffer);
  xe_query_data = λ _ _. some buffer;
  i915_query_length = λ _ _. none;
  i915_query_data = λ _ _. none;
}

xe_memory_lem_example : get_xe_device_memory_mib probe "card0" [] ≡ some 16384
unfolding sum_of
xe_memory_lem_example =
    xe_memory_lem probe "card0" [] 3 (zeros 4) regions (zeros 5) (omega arith) refl
      ((omega arith, refl, omega arith, refl), ((omega arith, refl, omega arith, refl), tt))
      (omega arith) refl refl
