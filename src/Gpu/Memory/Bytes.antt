-- ===== src/Gpu/Memory/Bytes.antt =====
-- Numbers in the bytes of a buffer, as pkg/gpu/discovery/memory.go reads them.
use Prim.Native.Nat.{◌%◌, ◌/◌}
use intel_resource_drivers_f.Base.{
  ℕ, zero, suc, ◌+◌, ◌^◌, ◌<◌, ◌≡◌, refl, ap, ◌∙◌, List, [], ◌∷◌, ◌++◌, length, arith,
}
use intel_resource_drivers_f.Gpu.Memory.{byte_at, field}

-- A number in so many bytes, the lowest first.
unfoldable pub bytes : ℕ → ℕ → List ℕ
bytes zero v = []
bytes (suc width) v = v % 256 ∷ bytes width (v / 256)

pub append_assoc : (xs ys zs : List ℕ) → (xs ++ ys) ++ zs ≡ xs ++ (ys ++ zs)
append_assoc [] ys zs = refl
append_assoc (x ∷ xs) ys zs = ap (λ l. x ∷ l) (append_assoc xs ys zs)

byte_at-append : (k : ℕ) (xs ys : List ℕ) → byte_at (length xs + k) (xs ++ ys) ≡ byte_at k ys
unfolding byte_at
byte_at-append k [] ys = ap (λ n. byte_at n ys) (omega arith)
byte_at-append k (x ∷ xs) ys =
    let e : length (x ∷ xs) + k ≡ suc (length xs + k) = omega arith in
    ap (λ n. byte_at n (x ∷ (xs ++ ys))) e ∙ byte_at-append k xs ys

pub field-append :
    (width k : ℕ) (xs ys : List ℕ) → field width (length xs + k) (xs ++ ys) ≡ field width k ys
unfolding field
field-append zero k xs ys = refl
field-append (suc width) k xs ys =
    let e : suc (length xs + k) ≡ length xs + suc k = omega arith in
    let later : field width (suc (length xs + k)) (xs ++ ys) ≡ field width (suc k) ys =
      ap (λ n. field width n (xs ++ ys)) e ∙ field-append width (suc k) xs ys in
    omega (arith, later, byte_at-append k xs ys)

pub length-bytes : (width v : ℕ) → length (bytes width v) ≡ width
unfolding bytes
length-bytes zero v = refl
length-bytes (suc width) v = ap suc (length-bytes width (v / 256))

pub field-bytes :
    (width v : ℕ) (ys : List ℕ) → v < 256 ^ width → field width 0 (bytes width v ++ ys) ≡ v
unfolding field bytes byte_at
field-bytes zero v ys h = omega (arith, h)
field-bytes (suc width) v ys h =
    let less : v / 256 < 256 ^ width = omega (arith, h) in
    let later : field width 1 (v % 256 ∷ (bytes width (v / 256) ++ ys)) ≡ v / 256 =
      field-append width 0 (v % 256 ∷ []) (bytes width (v / 256) ++ ys)
      ∙ field-bytes width (v / 256) ys less in
    omega (arith, later)
