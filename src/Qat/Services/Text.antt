-- ===== src/Qat/Services/Text.antt =====
-- The text of a set of services, read back.
use intel_resource_drivers_f.Base.{
  ℕ, ◌-◌, ◌%◌, ◌<◌, ◌≡◌, refl, Bool, true, false, none, some, arith, if◌then◌else◌, ltb, ◌==◌,
  all_below, all_below_lem, split,
}
use intel_resource_drivers_f.Qat.Services.{none_service, services_string, string_to_services}

-- `None` stands for no service, and is dropped beside any other.
abbrev pub canonical : ℕ → ℕ
canonical s = if ltb s 2 then none_service else s - s % 2

reads_back : ℕ → Bool
reads_back s = elim (string_to_services (services_string s)) [
  | none ↦ false
  | some t ↦ t == canonical s
]

table : all_below reads_back 32 ≡ true
unfolding all_below reads_back string_to_services services_string split
table = refl

-- For every set of the five services, `StringToServices` reads the text that `String` writes back as
-- that set, without `None` beside another service, and as `None` for the empty set.
pub string_to_services-services_string :
    (s : ℕ) → s < 32 → string_to_services (services_string s) ≡ some (canonical s)
unfolding reads_back
string_to_services-services_string s h = ground (arith, all_below_lem reads_back 32 s h table)
