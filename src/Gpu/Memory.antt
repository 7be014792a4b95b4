-- ===== src/Gpu/Memory.antt =====
-- The memory of a GPU, as its DRM driver reports it: pkg/gpu/discovery/memory.go. What the two ioctls of a
-- query answer is in `Probe`; a buffer is a list of bytes.
pub mod Bytes
pub mod Layout
use Prim.Native.Nat.{◌%◌, ◌/◌}
use intel_resource_drivers_f.Base.{
  ℕ, zero, suc, ◌+◌, ◌*◌, ◌^◌, ℤ, pos, negsuc, String, List, [], ◌∷◌, Option, none, some, length,
  ltb, ◌==◌, if◌then◌else◌,
}
use intel_resource_drivers_f.Gpu.Probe.{Probe}

abbrev pub xe_mem_region_class_vram : ℕ
xe_mem_region_class_vram = 1

abbrev pub i915_mem_class_device : ℕ
i915_mem_class_device = 1

-- The sizes of `XeQueryMemRegions` and `I915QueryMemoryRegions`.
abbrev pub xe_header_size : ℕ
xe_header_size = 8

abbrev pub i915_header_size : ℕ
i915_header_size = 16

-- The size of `XeMemRegion`, and of `I915MemoryRegionInfo`: both have the class first, in 2 bytes, and the
-- size of the region after 8 bytes, in 8 bytes.
abbrev pub region_size : ℕ
region_size = 88

unfoldable pub byte_at : ℕ → List ℕ → ℕ
byte_at n [] = 0
byte_at zero (b ∷ bs) = b
byte_at (suc n) (b ∷ bs) = byte_at n bs

-- A field of so many bytes at an offset, the lowest byte first.
unfoldable pub field : ℕ → ℕ → List ℕ → ℕ
unfolding byte_at
field zero offset buf = 0
field (suc width) offset buf = byte_at offset buf + 256 * field width (suc offset) buf

-- The loop over the regions of a class, from region `i` with `n` to go; the total is a uint64.
unfoldable pub add_regions : ℕ → ℕ → ℕ → ℕ → List ℕ → ℕ → ℕ
unfolding field
add_regions class header i zero buf total = total
add_regions class header i (suc n) buf total =
    let offset = header + i * region_size in
    let size = (if field 2 offset buf == class then field 8 (offset + 8) buf else 0) in
    let later = add_regions class header (suc i) n buf ((total + size) % 2 ^ 64) in
    if ltb (length buf) (offset + region_size) then total else later

-- The sum of the regions of a buffer, in MiB; the number of regions is in its first 4 bytes.
unfoldable pub total_mib : ℕ → ℕ → List ℕ → Option ℕ
unfolding add_regions
total_mib class header buf =
    if ltb (length buf) header
    then none
    else some (add_regions class header 0 (field 4 0 buf) buf 0 / (1024 * 1024))

-- A buffer of zeros of the given size, after the kernel wrote to it.
unfoldable pub filled : ℕ → List ℕ → List ℕ
filled zero bs = []
filled (suc n) [] = 0 ∷ filled n []
filled (suc n) (b ∷ bs) = b ∷ filled n bs

module _ {W : Type 0} (probe : Probe W) where
  -- `xeDeviceQueryBuf`
  unfoldable pub xe_device_query_buf : String → W → Option (List ℕ)
  xe_device_query_buf card_name w = elim (probe.xe_query_size card_name w) [
    | none ↦ none
    | some zero ↦ none
    | some (suc size) ↦ elim (probe.xe_query_data card_name w) [
      | none ↦ none
      | some bytes ↦ some (filled (suc size) bytes)
    ]
  ]

  unfoldable pub get_xe_device_memory_mib : String → W → Option ℕ
  unfolding xe_device_query_buf total_mib
  get_xe_device_memory_mib card_name w = elim (xe_device_query_buf card_name w) [
    | none ↦ none
    | some buf ↦ total_mib xe_mem_region_class_vram xe_header_size buf
  ]

  -- The length is an int32, and is refused unless it is positive.
  unfoldable pub get_i915_device_memory_mib : String → W → Option ℕ
  unfolding total_mib
  get_i915_device_memory_mib card_name w = elim (probe.i915_query_length card_name w) [
    | none ↦ none
    | some (negsuc n) ↦ none
    | some (pos zero) ↦ none
    | some (pos (suc size)) ↦ elim (probe.i915_query_data card_name w) [
      | none ↦ none
      | some bytes ↦ total_mib i915_mem_class_device i915_header_size (filled (suc size) bytes)
    ]
  ]
