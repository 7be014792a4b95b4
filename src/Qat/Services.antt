-- ===== src/Qat/Services.antt =====
-- `Services` of pkg/qat/device/device.go: a `uint64` of one bit for each service, and its text.
pub mod Text
use Prim.Native.Nat.{bit_and, bit_or}
use Prim.Native.String.{◌++◌ as str_append}
use intel_resource_drivers_f.Base.{
  ℕ, ◌-◌, ◌^◌, Bool, String, List, [], ◌∷◌, Option, none, some, if◌then◌else◌, ◌==◌, str_eq, split,
}

abbrev pub none_service : ℕ
none_service = 1

abbrev pub sym : ℕ
sym = 2

abbrev pub asym : ℕ
asym = 4

abbrev pub dc : ℕ
dc = 8

abbrev pub dcc : ℕ
dcc = 16

abbrev pub unset : ℕ
unset = 0

-- `servicetostring`, in the order in which `String` reads it.
abbrev pub service_to_string : List (ℕ × String)
service_to_string =
    (none_service, "") ∷ (sym, "sym") ∷ (asym, "asym") ∷ (dc, "dc") ∷ (dcc, "dcc") ∷ []

-- The loop of `String`, with the text so far.
string_from : List (ℕ × String) → ℕ → String → String
string_from [] s str = str
string_from ((i, name) ∷ rest) s str = string_from rest s (
    if bit_and s i == 0
    then str
    else if str_eq str ""
    then name
    else str_append str (str_append ";" name))

unfoldable pub services_string : ℕ → String
unfolding string_from
services_string s = string_from service_to_string s ""

unfoldable pub supports : ℕ → ℕ → Bool
supports s service = bit_and s service == service

-- The inner loop of `StringToServices`.
service_of : List (ℕ × String) → String → Option ℕ
service_of [] str = none
service_of ((i, name) ∷ rest) str = if str_eq str name then some i else service_of rest str

-- The outer loop, with the services so far; `none` is the unknown service.
services_from : List String → ℕ → Option ℕ
unfolding service_of
services_from [] service = some service
services_from (str ∷ rest) service = elim (service_of service_to_string str) [
  | none ↦ none
  | some i ↦ services_from rest (bit_or service i)
]

-- `service &= ^None`
abbrev without_none : ℕ → ℕ
without_none service = bit_and service (2 ^ 64 - 2)

unfoldable pub string_to_services : String → Option ℕ
unfolding services_from
string_to_services str = elim (services_from (split b';' str) unset) [
  | none ↦ none
  | some service ↦ some (if service == none_service then service else without_none service)
]

-- The services that a list of requests adds up to, from `config`.
unfoldable pub configure : ℕ → List ℕ → ℕ
configure config [] = config
configure config (s ∷ srv) = configure (bit_or config s) srv
