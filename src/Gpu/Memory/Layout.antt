-- ===== src/Gpu/Memory/Layout.antt =====
-- What pkg/gpu/discovery/memory.go reads of a buffer that has the layout of a DRM driver.
use Prim.Native.Nat.{◌%◌, ◌/◌}
use intel_resource_drivers_f.Base.{
  ℕ, zero, suc, ◌+◌, ◌*◌, ◌^◌, ◌<◌, ◌≡◌, refl, sym, ap, ◌∙◌, true, false, String, List, [], ◌∷◌,
  ◌++◌, some, length, length-append, ltb, ◌==◌, if◌then◌else◌, All, arith,
}
use intel_resource_drivers_f.Gpu.Memory.Bytes.{
  bytes, append_assoc, field-append, length-bytes, field-bytes,
}
use intel_resource_drivers_f.Gpu.Memory.{
  field, region_size, add_regions, total_mib, filled, xe_mem_region_class_vram, xe_header_size,
  xe_device_query_buf, get_xe_device_memory_mib,
}
use intel_resource_drivers_f.Gpu.Probe.{Probe}

-- A region of memory, with what stands between its class and its size, and after that.
pub record Region : Type 0 where
  pub mem_class : ℕ
  pub between : List ℕ
  pub size : ℕ
  pub after : List ℕ

unfoldable pub encoded : Region → List ℕ
unfolding bytes
encoded r = (bytes 2 r.mem_class ++ r.between) ++ (bytes 8 r.size ++ r.after)

unfoldable pub all_encoded : List Region → List ℕ
unfolding encoded
all_encoded [] = []
all_encoded (r ∷ rs) = encoded r ++ all_encoded rs

abbrev pub IsRegion : Region → Type 0
IsRegion r =
    (r.mem_class < 2 ^ 16) × (length r.between ≡ 6) × (r.size < 2 ^ 64) × (length r.after ≡ 72)

-- The sizes of the first `n` regions that have the class.
unfoldable pub sum_of : ℕ → ℕ → List Region → ℕ
sum_of class zero rs = 0
sum_of class (suc n) [] = 0
sum_of class (suc n) (r ∷ rs) =
    let rest = sum_of class n rs in if r.mem_class == class then r.size + rest else rest

sum_split : (a b n : ℕ) → ((a + b) % 2 ^ 64 + n) % 2 ^ 64 ≡ (a + (b + n)) % 2 ^ 64
sum_split a b n = omega arith

length-encoded : (r : Region) → IsRegion r → length (encoded r) ≡ region_size
unfolding encoded
length-encoded r is = omega (
  arith,
  is.1,
  is.3,
  length-append (bytes 2 r.mem_class ++ r.between) (bytes 8 r.size ++ r.after),
  length-append (bytes 2 r.mem_class) r.between,
  length-append (bytes 8 r.size) r.after,
  length-bytes 2 r.mem_class,
  length-bytes 8 r.size,
)

-- The class of a region that stands behind other bytes.
field-class :
    (r : Region) (before later : List ℕ) (offset : ℕ)
    → IsRegion r
    → length before ≡ offset
    → field 2 offset (before ++ (encoded r ++ later)) ≡ r.mem_class
unfolding encoded
field-class r before later offset is at =
    let tail = r.between ++ ((bytes 8 r.size ++ r.after) ++ later) in
    let same : encoded r ++ later ≡ bytes 2 r.mem_class ++ tail =
      append_assoc (bytes 2 r.mem_class ++ r.between) (bytes 8 r.size ++ r.after) later
      ∙ append_assoc (bytes 2 r.mem_class) r.between ((bytes 8 r.size ++ r.after) ++ later) in
    let start : offset ≡ length before + 0 = omega (arith, at) in
    ap (λ n. field 2 n (before ++ (encoded r ++ later))) start
    ∙ field-append 2 0 before (encoded r ++ later)
    ∙ ap (field 2 0) same
    ∙ field-bytes 2 r.mem_class tail is.0

field-size :
    (r : Region) (before later : List ℕ) (offset : ℕ)
    → IsRegion r
    → length before ≡ offset
    → field 8 (offset + 8) (before ++ (encoded r ++ later)) ≡ r.size
unfolding encoded
field-size r before later offset is at =
    let front = bytes 2 r.mem_class ++ r.between in
    let same : encoded r ++ later ≡ front ++ (bytes 8 r.size ++ (r.after ++ later)) =
      append_assoc front (bytes 8 r.size ++ r.after) later
      ∙ ap (λ l. front ++ l) (append_assoc (bytes 8 r.size) r.after later) in
    let start : offset + 8 ≡ length before + 8 = omega (arith, at) in
    let inner : 8 ≡ length front + 0 =
      omega
        (arith, is.1, length-append (bytes 2 r.mem_class) r.between, length-bytes 2 r.mem_class) in
    ap (λ n. field 8 n (before ++ (encoded r ++ later))) start
    ∙ field-append 8 8 before (encoded r ++ later)
    ∙ ap (field 8 8) same
    ∙ ap (λ n. field 8 n (front ++ (bytes 8 r.size ++ (r.after ++ later)))) inner
    ∙ field-append 8 0 front (bytes 8 r.size ++ (r.after ++ later))
    ∙ field-bytes 8 r.size (r.after ++ later) is.2

-- A round of the loop at a whole region.
add_regions_round :
    (class header i n : ℕ) (buf : List ℕ) (total c size : ℕ)
    → ltb (length buf) (header + i * region_size + region_size) ≡ false
    → field 2 (header + i * region_size) buf ≡ c
    → field 8 (header + i * region_size + 8) buf ≡ size
    → add_regions class header i (suc n) buf total
      ≡ add_regions class header (suc i) n buf ((total + (if c == class then size else 0)) % 2 ^ 64)
unfolding add_regions
add_regions_round class header i n buf total c size over e f =
    let offset = header + i * region_size in
    let go = λ (x y : ℕ).
      add_regions class header (suc i) n buf ((total + (if x == class then y else 0)) % 2 ^ 64) in
    rw (add_regions, over) (ap (λ x. go x (field 8 (offset + 8) buf)) e ∙ ap (λ y. go c y) f)

all_encoded-cons :
    (r : Region) (rs : List Region) (rest : List ℕ)
    → all_encoded (r ∷ rs) ++ rest ≡ encoded r ++ (all_encoded rs ++ rest)
unfolding all_encoded
all_encoded-cons r rs rest = append_assoc (encoded r) (all_encoded rs) rest

sum_of-cons :
    (class n : ℕ) (r : Region) (rs : List Region)
    → sum_of class (suc n) (r ∷ rs)
      ≡ (if r.mem_class == class then r.size else 0) + sum_of class n rs
unfolding sum_of
sum_of-cons class n r rs = ground arith

none_left :
    (class header i total : ℕ) (buf : List ℕ) (rs : List Region)
    → total < 2 ^ 64
    → add_regions class header i 0 buf total ≡ (total + sum_of class 0 rs) % 2 ^ 64
unfolding add_regions sum_of
none_left class header i total buf rs fits = omega (arith, fits)

cut_off :
    (class header n i : ℕ) (before rest : List ℕ) (total : ℕ)
    → length before ≡ header + i * region_size
    → length rest < region_size
    → total < 2 ^ 64
    → add_regions class header i (suc n) (before ++ (all_encoded [] ++ rest)) total
      ≡ (total + sum_of class (suc n) []) % 2 ^ 64
unfolding add_regions sum_of all_encoded
cut_off class header n i before rest total at short fits =
    let over : ltb (length (before ++ rest)) (header + i * region_size + region_size) ≡ true =
      ground (arith, at, short, length-append before rest) in
    rw (add_regions, over) (omega (arith, fits))

-- The regions of which all bytes are there are added, and a rest that is too short for a region ends it.
add_regions_lem :
    (class header n i : ℕ) (before : List ℕ) (rs : List Region) (rest : List ℕ) (total : ℕ)
    → All IsRegion rs
    → length before ≡ header + i * region_size
    → length rest < region_size
    → total < 2 ^ 64
    → add_regions class header i n (before ++ (all_encoded rs ++ rest)) total
      ≡ (total + sum_of class n rs) % 2 ^ 64
add_regions_lem class header zero i before rs rest total all at short fits =
    none_left class header i total (before ++ (all_encoded rs ++ rest)) rs fits
add_regions_lem class header (suc n) i before [] rest total all at short fits =
    cut_off class header n i before rest total at short fits
add_regions_lem class header (suc n) i before (r ∷ rs) rest total all at short fits =
    let later = all_encoded rs ++ rest in
    let buf = before ++ (encoded r ++ later) in
    let size = (if r.mem_class == class then r.size else 0) in
    let next = (total + size) % 2 ^ 64 in
    let whole : ltb (length buf) (header + i * region_size + region_size) ≡ false = ground (
      arith,
      at,
      length-append before (encoded r ++ later),
      length-append (encoded r) later,
      length-encoded r all.0,
    ) in
    let at' : length (before ++ encoded r) ≡ header + suc i * region_size =
      omega (arith, at, length-append before (encoded r), length-encoded r all.0) in
    ap (λ l. add_regions class header i (suc n) (before ++ l) total) (all_encoded-cons r rs rest)
    ∙ add_regions_round class header i n buf total r.mem_class r.size whole
        (field-class r before later (header + i * region_size) all.0 at)
        (field-size r before later (header + i * region_size) all.0 at)
    ∙ ap (λ l. add_regions class header (suc i) n l next)
        (sym (append_assoc before (encoded r) later))
    ∙ add_regions_lem class header n (suc i) (before ++ encoded r) rs rest next all.1 at' short
        (omega arith)
    ∙ sum_split total size (sum_of class n rs)
    ∙ ap (λ x. (total + x) % 2 ^ 64) (sym (sum_of-cons class n r rs))

pub total_mib_lem :
    (class header n : ℕ) (padding : List ℕ) (rs : List Region) (rest : List ℕ)
    → n < 2 ^ 32
    → 4 + length padding ≡ header
    → All IsRegion rs
    → length rest < region_size
    → total_mib class header ((bytes 4 n ++ padding) ++ (all_encoded rs ++ rest))
      ≡ some ((sum_of class n rs % 2 ^ 64) / (1024 * 1024))
unfolding total_mib
total_mib_lem class header n padding rs rest fits size all short =
    let before = bytes 4 n ++ padding in
    let tail = all_encoded rs ++ rest in
    let at : length before ≡ header + 0 * region_size =
      omega (arith, size, length-append (bytes 4 n) padding, length-bytes 4 n) in
    let large : ltb (length (before ++ tail)) header ≡ false =
      ground (arith, at, length-append before tail) in
    let count : field 4 0 (before ++ tail) ≡ n =
      ap (field 4 0) (append_assoc (bytes 4 n) padding tail)
      ∙ field-bytes 4 n (padding ++ tail) fits in
    rw (total_mib, large)
      (ap (λ x. some (x / (1024 * 1024)))
        (ap (λ k. add_regions class header 0 k (before ++ tail) 0) count
          ∙ add_regions_lem class header n 0 before rs rest 0 all at short (omega arith)
          ∙ ap (λ x. x % 2 ^ 64) (omega arith)))

filled-length : (bs : List ℕ) → filled (length bs) bs ≡ bs
unfolding filled
filled-length [] = refl
filled-length (b ∷ bs) = ap (λ l. b ∷ l) (filled-length bs)

module _ {W : Type 0} (probe : Probe W) where
  -- The buffer is what the kernel gives, if it has the size that the kernel asked for.
  xe_buffer :
      (card_name : String) (buf : List ℕ) (w : W)
      → 0 < length buf
      → probe.xe_query_size card_name w ≡ some (length buf)
      → probe.xe_query_data card_name w ≡ some buf
      → get_xe_device_memory_mib probe card_name w
        ≡ total_mib xe_mem_region_class_vram xe_header_size buf
  unfolding get_xe_device_memory_mib xe_device_query_buf
  xe_buffer card_name [] w some_byte e f = absurd (omega (arith, some_byte))
  xe_buffer card_name (b ∷ bs) w some_byte e f =
      rw (get_xe_device_memory_mib, e, f)
        (ap (total_mib xe_mem_region_class_vram xe_header_size) (filled-length (b ∷ bs)))

  -- Let the kernel give a buffer of the size that it asked for, with the layout of the xe driver: a
  -- number below 2^32 and 4 more bytes, regions that are all there, each of 88 bytes with its class
  -- and its size in their places, and a rest that is too short for a region. The memory that is read
  -- is the sum of the sizes of the VRAM regions among the first ones that the number counts, modulo
  -- 2^64, in MiB rounded down: a number that is too large reads nothing beyond the buffer.
  pub xe_memory_lem :
      (card_name : String) (w : W) (n : ℕ) (padding : List ℕ) (rs : List Region) (rest : List ℕ)
      → n < 2 ^ 32
      → length padding ≡ 4
      → All IsRegion rs
      → length rest < region_size
      → probe.xe_query_size card_name w
        ≡ some (length ((bytes 4 n ++ padding) ++ (all_encoded rs ++ rest)))
      → probe.xe_query_data card_name w ≡ some ((bytes 4 n ++ padding) ++ (all_encoded rs ++ rest))
      → get_xe_device_memory_mib probe card_name w
        ≡ some ((sum_of xe_mem_region_class_vram n rs % 2 ^ 64) / (1024 * 1024))
  xe_memory_lem card_name w n padding rs rest fits size all short e f =
      let buf = (bytes 4 n ++ padding) ++ (all_encoded rs ++ rest) in
      let some_byte : 0 < length buf = omega (
        arith,
        size,
        length-append (bytes 4 n ++ padding) (all_encoded rs ++ rest),
        length-append (bytes 4 n) padding,
      ) in
      xe_buffer card_name buf w some_byte e f
      ∙ total_mib_lem xe_mem_region_class_vram xe_header_size n padding rs rest fits
          (omega (arith, size)) all short
