-- ===== src/Base/Text.antt =====
-- What the source uses of `strings` and `strconv`, as walks over the characters of a text.
use Prim.Native.Char.{Char, code}
use Prim.Native.Nat.{ℕ, zero, suc, ◌+◌, ◌-◌, ◌*◌, ◌^◌}
use Prim.Native.String.{String}
use mathlib.Core.Bool.{Bool, true, false, ◌&&◌, ◌||◌}
use mathlib.Core.List.{List, [], ◌∷◌}
use mathlib.Core.Option.{Option, none, some}
use text.Mathlib.Text.{◌==◌ as str_eq}
use intel_resource_drivers_f.Base.Tests.{if◌then◌else◌, ◌==◌, leb}

-- A signed number; `negsuc n` is -(n + 1).
pub data ℤ : Type 0 where
  pos : ℕ → ℤ
  negsuc : ℕ → ℤ

-- `strings.ReplaceAll(s, old, new)` for one character.
unfoldable pub replace_all : ℕ → Char → String → String
replace_all old new String.[] = String.[]
replace_all old new (String.◌∷◌ c s) =
    String.◌∷◌ (if code c == old then new else c) (replace_all old new s)

-- The head of a list of parts, with a character put in front of it.
abbrev pub onto_head : Char → List String → List String
onto_head c [] = String.◌∷◌ c String.[] ∷ []
onto_head c (p ∷ ps) = String.◌∷◌ c p ∷ ps

-- `strings.Split(s, sep)` for one character.
unfoldable pub split : ℕ → String → List String
split sep String.[] = String.[] ∷ []
split sep (String.◌∷◌ c s) =
    let rest = split sep s in if code c == sep then String.[] ∷ rest else onto_head c rest

is_space : ℕ → Bool
is_space c = c == 32 || (leb 9 c && leb c 13)

trim_left : String → String
trim_left String.[] = String.[]
trim_left (String.◌∷◌ c s) =
    let rest = trim_left s in if is_space (code c) then rest else String.◌∷◌ c s

trim_right : String → String
trim_right String.[] = String.[]
trim_right (String.◌∷◌ c s) =
    let rest = trim_right s in
    if is_space (code c) && str_eq rest String.[] then String.[] else String.◌∷◌ c rest

-- `strings.TrimSpace`, on the ASCII white space.
unfoldable pub trim_space : String → String
unfolding is_space trim_left trim_right
trim_space s = trim_right (trim_left s)

unfoldable pub digits_from : ℕ → String → Option ℕ
digits_from n String.[] = some n
digits_from n (String.◌∷◌ c s) =
    let rest = digits_from (10 * n + (code c - 48)) s in
    if leb 48 (code c) && leb (code c) 57 then rest else none

-- A text of one digit or more.
unfoldable pub digits : String → Option ℕ
unfolding digits_from
digits String.[] = none
digits (String.◌∷◌ c s) = digits_from 0 (String.◌∷◌ c s)

in_range : ℕ → (ℕ → ℤ) → ℕ → Option ℤ
in_range bound sign n = if leb n bound then some (sign n) else none

negate : ℕ → ℤ
negate zero = pos 0
negate (suc n) = negsuc n

signed : Bool → String → Option ℤ
unfolding digits in_range negate
signed minus s = elim (digits s) [
  | none ↦ none
  | some n ↦ if minus then in_range (2 ^ 63) negate n else in_range (2 ^ 63 - 1) pos n
]

-- `strconv.Atoi`: an optional sign, digits, and the range of a 64-bit `int`.
unfoldable pub atoi : String → Option ℤ
unfolding signed
atoi String.[] = none
atoi (String.◌∷◌ c s) =
    if code c == b'-'
    then signed true s
    else if code c == b'+'
    then signed false s
    else signed false (String.◌∷◌ c s)

-- What follows a prefix.
unfoldable pub strip_prefix : String → String → Option String
strip_prefix String.[] s = some s
strip_prefix (String.◌∷◌ c p) String.[] = none
strip_prefix (String.◌∷◌ c p) (String.◌∷◌ d s) =
    let rest = strip_prefix p s in if code c == code d then rest else none

-- The number of characters, if each is a digit.
digit_count : String → Option ℕ
digit_count String.[] = some 0
digit_count (String.◌∷◌ c s) =
    let rest = digit_count s in
    if leb 48 (code c) && leb (code c) 57
    then (elim rest [ none ↦ none | some n ↦ some (suc n) ])
    else none

within : Option ℕ → ℕ → Bool
within none n = leb 1 n
within (some most) n = leb 1 n && leb n most

-- Does the name match `^prefix[0-9]{1,most}$`, or `^prefix[0-9]+$` without a bound?
unfoldable pub numbered : String → Option ℕ → String → Bool
unfolding strip_prefix digit_count within
numbered prefix most name = elim (strip_prefix prefix name) [
  | none ↦ false
  | some rest ↦ elim (digit_count rest) [ none ↦ false | some n ↦ within most n ]
]
