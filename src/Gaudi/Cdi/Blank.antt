-- ===== src/Gaudi/Cdi/Blank.antt =====
-- The slice that `DeleteBlankDevices` of pkg/gaudi/cdihelpers fills.
use intel_resource_drivers_f.Base.{
  ℕ, zero, suc, ◌+◌, ◌≡◌, ◌≢◌, refl, ap, append_nil, ◌∙◌, eq_iff, ◌<◌, not, String, List, [], ◌∷◌,
  ◌++◌, Option, none, some, keep, length, arith, str_eq, if◌then◌else◌,
}
use intel_resource_drivers_f.Gaudi.Cdi.{CdiDevice, zero_devices, filter_into, filtered_devices}

-- How many devices have the name of the claim.
unfoldable pub named : String → List CdiDevice → ℕ
named claim_uid [] = 0
named claim_uid (d ∷ ds) =
    let n = named claim_uid ds in if str_eq d.name claim_uid then suc n else n

abbrev others : String → List CdiDevice → List CdiDevice
others claim_uid = keep (λ d. not (str_eq d.name claim_uid))

length-others :
    (claim_uid : String) (ds : List CdiDevice)
    → length ds ≡ length (others claim_uid ds) + named claim_uid ds
unfolding named
length-others claim_uid [] = omega arith
length-others claim_uid (d ∷ ds) = ground (arith, length-others claim_uid ds)

-- With room for the kept devices and `spare` more, those places stay zero values.
filter_into_room :
    (claim_uid : String) (slots spare : ℕ) (ds : List CdiDevice)
    → slots ≡ length (others claim_uid ds) + spare
    → filter_into claim_uid slots ds ≡ some (others claim_uid ds ++ zero_devices spare)
unfolding filter_into
filter_into_room claim_uid slots spare [] e = ap (λ n. some (zero_devices n)) (omega (arith, e))
filter_into_room claim_uid zero spare (d ∷ ds) e =
    ground (arith, e, filter_into_room claim_uid zero spare ds)
filter_into_room claim_uid (suc slots) spare (d ∷ ds) e = ground (
  arith,
  e,
  filter_into_room claim_uid slots spare ds,
  filter_into_room claim_uid (suc slots) spare ds,
)

filter_into_panics :
    (claim_uid : String) (slots : ℕ) (ds : List CdiDevice)
    → slots < length (others claim_uid ds)
    → filter_into claim_uid slots ds ≡ none
unfolding filter_into
filter_into_panics claim_uid slots [] h = absurd (omega (arith, h))
filter_into_panics claim_uid zero (d ∷ ds) h =
    ground (arith, h, filter_into_panics claim_uid zero ds)
filter_into_panics claim_uid (suc slots) (d ∷ ds) h =
    ground
      (arith, h, filter_into_panics claim_uid slots ds, filter_into_panics claim_uid (suc slots) ds)

-- What is left of the devices, by how many of them have the name of the claim.
abbrev pub left : String → List CdiDevice → ℕ → Option (List CdiDevice)
left claim_uid ds zero = none
left claim_uid ds (suc n) = some (others claim_uid ds ++ zero_devices n)

-- What `DeleteBlankDevices` makes of the devices of a spec: it panics if none has the name of the
-- claim, and else keeps the others in their order and appends a device without a name for each
-- device of that name beyond the first.
pub filtered_devices_lem :
    (claim_uid : String) (ds : List CdiDevice)
    → filtered_devices claim_uid ds ≡ left claim_uid ds (named claim_uid ds)
unfolding filtered_devices named
filtered_devices_lem claim_uid [] = refl
filtered_devices_lem claim_uid (d ∷ ds) =
    go (named claim_uid (d ∷ ds)) (length-others claim_uid (d ∷ ds))
  where
    go :
        (n : ℕ)
        → length (d ∷ ds) ≡ length (others claim_uid (d ∷ ds)) + n
        → filter_into claim_uid (length ds) (d ∷ ds) ≡ left claim_uid (d ∷ ds) n
    go zero e = filter_into_panics claim_uid (length ds) (d ∷ ds) (omega (arith, e))
    go (suc n) e = filter_into_room claim_uid (length ds) n (d ∷ ds) (omega (arith, e))

named-append :
    (claim_uid : String) (ds : List CdiDevice) (b : CdiDevice)
    → b.name ≡ claim_uid
    → named claim_uid ds ≡ 0
    → (named claim_uid (ds ++ (b ∷ [])) ≡ 1) × (others claim_uid (ds ++ (b ∷ [])) ≡ ds)
unfolding named
named-append claim_uid [] b e h = ground (arith, (eq_iff b.name claim_uid).1 e)
named-append claim_uid (d ∷ ds) b e h = ground (arith, h, named-append claim_uid ds b e)

-- A device appended to devices without its name is exactly what the filter takes away.
pub filtered_devices-append :
    (claim_uid : String) (ds : List CdiDevice) (b : CdiDevice)
    → b.name ≡ claim_uid
    → named claim_uid ds ≡ 0
    → filtered_devices claim_uid (ds ++ (b ∷ [])) ≡ some ds
unfolding zero_devices
filtered_devices-append claim_uid ds b e h =
    let (one, same) = named-append claim_uid ds b e h in
    filtered_devices_lem claim_uid (ds ++ (b ∷ []))
    ∙ ap (left claim_uid (ds ++ (b ∷ []))) one
    ∙ ap some (append_nil (others claim_uid (ds ++ (b ∷ []))) ∙ same)

pub named-append_ne :
    (claim_uid : String) (ds : List CdiDevice) (b : CdiDevice)
    → b.name ≡ claim_uid
    → named claim_uid ds ≡ 0
    → named claim_uid (ds ++ (b ∷ [])) ≢ 0
named-append_ne claim_uid ds b e h z = omega (arith, (named-append claim_uid ds b e h).0, z)
