-- ===== src/Base/Pattern.antt =====
-- The names of PCI devices under /sys: `PciRegexp` of pkg/gaudi/device and of pkg/gpu/device.
use Prim.Native.Char.{code}
use Prim.Native.Nat.{ℕ}
use Prim.Native.String.{String, slice, len}
use mathlib.Core.Bool.{Bool, true, false, ◌&&◌, ◌||◌}
use mathlib.Core.List.{List, [], ◌∷◌}
use mathlib.Core.Option.{none, some}
use intel_resource_drivers_f.Base.Tests.{leb, ◌==◌}
use intel_resource_drivers_f.Base.Text.{strip_prefix}

-- The parts of `PciRegexp`.
pub data Class : Type 0 where
  hex octal : Class
  exactly : ℕ → Class

in_class : Class → ℕ → Bool
in_class Class.hex c = (leb 48 c && leb c 57) || (leb 97 c && leb c 102)
in_class Class.octal c = leb 48 c && leb c 55
in_class (Class.exactly d) c = c == d

matches_all : List Class → String → Bool
unfolding in_class
matches_all [] String.[] = true
matches_all [] (String.◌∷◌ c s) = false
matches_all (k ∷ ks) String.[] = false
matches_all (k ∷ ks) (String.◌∷◌ c s) = in_class k (code c) && matches_all ks s

abbrev pci_classes : List Class
pci_classes =
    Class.hex
    ∷ Class.hex
    ∷ Class.hex
    ∷ Class.hex
    ∷ Class.exactly b':'
    ∷ Class.hex
    ∷ Class.hex
    ∷ Class.exactly b':'
    ∷ Class.hex
    ∷ Class.hex
    ∷ Class.exactly b'.'
    ∷ Class.octal
    ∷ []

-- `PciRegexp`, which is bound to the end of the name only.
unfoldable pub pci_regexp : String → Bool
unfolding matches_all
pci_regexp String.[] = false
pci_regexp (String.◌∷◌ c s) =
    let later = pci_regexp s in matches_all pci_classes (String.◌∷◌ c s) || later

-- `s[n:]`
abbrev pub from : ℕ → String → String
from n s = slice s n (len s)

-- `strings.HasPrefix`
abbrev pub has_prefix : String → String → Bool
has_prefix prefix s = elim (strip_prefix prefix s) [ none ↦ false | some _ ↦ true ]

-- `strings.Contains(s, sub)`
unfoldable pub contains : String → String → Bool
contains sub String.[] = has_prefix sub String.[]
contains sub (String.◌∷◌ c s) =
    let later = contains sub s in has_prefix sub (String.◌∷◌ c s) || later
