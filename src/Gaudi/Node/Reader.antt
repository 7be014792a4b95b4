-- ===== src/Gaudi/Node/Reader.antt =====
-- How a process reads a list from its environment, for what cmd/kubelet-gaudi-plugin puts there.
use Prim.Native.Char.{code}
use Prim.Native.String.{◌++◌ as str_append}
use Prim.Native.String.append
use text.Mathlib.TextLemmas.{append_assoc}
use intel_resource_drivers_f.Base.{
  ℕ, ◌≡◌, refl, sym, ap, ◌∙◌, Bool, true, false, String, List, [], ◌∷◌, Option, none, some, arith,
  if◌then◌else◌, ◌==◌, strip_prefix, split, join, free_of,
}
use intel_resource_drivers_f.Gaudi.Node.{env_var}

-- The value of a variable, by the first entry that begins with its name and `=`.
unfoldable pub getenv : String → List String → Option String
getenv name [] = none
getenv name (entry ∷ entries) =
    let later = getenv name entries in
    elim (strip_prefix (str_append name "=") entry) [ none ↦ later | some value ↦ some value ]

-- The values of a list that is separated by commas; none without the variable.
unfoldable pub get_list : String → List String → List String
unfolding getenv
get_list name entries = elim (getenv name entries) [ none ↦ [] | some value ↦ split b',' value ]

pub strip_prefix-append : (p s : String) → strip_prefix p (str_append p s) ≡ some s
unfolding strip_prefix
strip_prefix-append String.[] s = rw append.nil refl
strip_prefix-append (String.◌∷◌ c p) s = rw append.cons (ground (arith, strip_prefix-append p s))

-- Is there a place where both texts have a character, and not the same one?
abbrev pub differ : String → String → Bool
differ String.[] q = false
differ (String.◌∷◌ c p) String.[] = false
differ (String.◌∷◌ c p) (String.◌∷◌ d q) = if code c == code d then differ p q else true

strip_prefix-differ : (p q s : String) → differ p q ≡ true → strip_prefix p (str_append q s) ≡ none
unfolding strip_prefix
strip_prefix-differ String.[] q s h = absurd (ground (arith, h))
strip_prefix-differ (String.◌∷◌ c p) String.[] s h = absurd (ground (arith, h))
strip_prefix-differ (String.◌∷◌ c p) (String.◌∷◌ d q) s h =
    rw append.cons (ground (arith, h, strip_prefix-differ p q s))

pub free_of-append :
    (sep : ℕ) (s t : String)
    → free_of sep s ≡ true
    → free_of sep t ≡ true
    → free_of sep (str_append s t) ≡ true
free_of-append sep String.[] t h k = rw append.nil k
free_of-append sep (String.◌∷◌ c s) t h k =
    rw append.cons (ground (arith, h, k, free_of-append sep s t))

pub get_list-env_var :
    (name : String) (values entries : List String)
    → get_list name (env_var name values ∷ entries) ≡ split b',' (join "," values)
unfolding get_list
get_list-env_var name values entries =
    let e : strip_prefix (str_append name "=") (env_var name values) ≡ some (join "," values) =
      ap (strip_prefix (str_append name "=")) (sym (append_assoc name "=" (join "," values)))
      ∙ strip_prefix-append (str_append name "=") (join "," values) in
    rw (get_list, e) refl

-- The variable of another name is passed over.
pub get_list-other :
    (name other : String) (values entries : List String)
    → differ (str_append name "=") (str_append other "=") ≡ true
    → get_list name (env_var other values ∷ entries) ≡ get_list name entries
unfolding get_list
get_list-other name other values entries h =
    let e : strip_prefix (str_append name "=") (env_var other values) ≡ none =
      ap (strip_prefix (str_append name "=")) (sym (append_assoc other "=" (join "," values)))
      ∙ strip_prefix-differ (str_append name "=") (str_append other "=") (join "," values) h in
    rw (get_list, e) refl
