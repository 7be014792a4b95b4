-- ===== src/Encoder.antt =====
-- An encoder of claims for the tests, which writes maps as encoding/json does: by the order of their keys.
pub mod Claims
use Prim.Native.Char.{Char, code}
use Prim.Native.Nat.{Ordering}
use Prim.Native.String.{compare}
use intel_resource_drivers_f.Base.{
  ◌≡◌, refl, sym, ap, ◌∙◌, inl, inr, Bool, true, false, String, List, [], ◌∷◌, map, Option, none,
  some, Dict, SameEntries, lookup, if◌then◌else◌, str_eq, ◌==◌, arith, eq_iff, Bool-cases,
}

-- Texts in one text: a bar before each text, and a backslash before each character of it.

escaped : String → String → String
escaped String.[] rest = rest
escaped (String.◌∷◌ c s) rest = String.◌∷◌ "\\" (String.◌∷◌ c (escaped s rest))

unfoldable pub pack : List String → String
unfolding escaped
pack [] = ""
pack (s ∷ ss) = String.◌∷◌ "|" (escaped s (pack ss))

-- A character in front of the first text, or a new text.
abbrev onto : Char → String × List String → String × List String
onto c (s, ss) = (String.◌∷◌ c s, ss)

abbrev next : String × List String → String × List String
next (s, ss) = ("", s ∷ ss)

read : String → String × List String
read String.[] = ("", [])
read (String.◌∷◌ c String.[]) = ("", "" ∷ [])
read (String.◌∷◌ c (String.◌∷◌ d s)) = elim (code c == b'\\') [
  | true ↦ onto d (read s)
  | false ↦ next (read (String.◌∷◌ d s))
]

unfoldable pub unpack : String → List String
unfolding read
unpack s = (read s).1

read-bar : (s : String) → read (String.◌∷◌ "|" s) ≡ next (read s)
unfolding read
read-bar String.[] = refl
read-bar (String.◌∷◌ c s) = refl

read-escaped :
    (s rest : String) (ss : List String) → read rest ≡ ("", ss) → read (escaped s rest) ≡ (s, ss)
unfolding read escaped
read-escaped String.[] rest ss e = e
read-escaped (String.◌∷◌ c s) rest ss e = ap (onto c) (read-escaped s rest ss e)

read-pack : (ss : List String) → read (pack ss) ≡ ("", ss)
unfolding pack read
read-pack [] = refl
read-pack (s ∷ ss) =
    read-bar (escaped s (pack ss)) ∙ ap next (read-escaped s (pack ss) ss (read-pack ss))

pub unpack-pack : (ss : List String) → unpack (pack ss) ≡ ss
unfolding unpack
unpack-pack ss = ap (λ p. p.1) (read-pack ss)

-- A list of anything that has a text.
module _ {A : Type 0} (to : A → String) (of : String → A) (of-to : (x : A) → of (to x) ≡ x) where
  map-map : (xs : List A) → map of (map to xs) ≡ xs
  map-map [] = refl
  map-map (x ∷ xs) = rw (of-to x, map-map xs) refl

  pub list_reads_back : (xs : List A) → map of (unpack (pack (map to xs))) ≡ xs
  list_reads_back xs = ap (map of) (unpack-pack (map to xs)) ∙ map-map xs

-- Maps: the entries in the order of their keys, each key once.
module _ {V : Type 0} where
  put : String → V → Dict V → Dict V
  put key v [] = (key, v) ∷ []
  put key v ((name, w) ∷ entries) =
      let later = put key v entries in
      if str_eq key name then (key, v) ∷ entries else (elim (compare key name) [
        | Ordering.lt ↦ (key, v) ∷ (name, w) ∷ entries
        | _ ↦ (name, w) ∷ later
      ])

  unfoldable pub sorted : Dict V → Dict V
  unfolding put
  sorted [] = []
  sorted ((key, v) ∷ entries) = put key v (sorted entries)

  lookup-put :
      (key name : String) (v : V) (entries : Dict V)
      → lookup name (put key v entries) ≡ (if str_eq key name then some v else lookup name entries)
  unfolding lookup put
  lookup-put key name v [] = refl
  lookup-put key name v ((other, w) ∷ entries) =
      ground
        (arith, lookup-put key name v entries, eq_iff key other, eq_iff key name, eq_iff other name)

  pub sorted-SameEntries : (entries : Dict V) → SameEntries (sorted entries) entries
  unfolding sorted lookup
  sorted-SameEntries [] name = refl
  sorted-SameEntries ((key, v) ∷ entries) name =
      lookup-put key name v (sorted entries)
      ∙ ap (λ o. if str_eq key name then some v else o) (sorted-SameEntries entries name)

-- The entries of a map, with a text of each value.
module _ {V : Type 0} (to : V → String) (of : String → V) (of-to : (v : V) → of (to v) ≡ v) where
  entry_text : String × V → String
  entry_text (key, v) = pack (key ∷ to v ∷ [])

  entry_of : List String → String × V
  entry_of (key ∷ v ∷ _) = (key, of v)
  entry_of (key ∷ []) = (key, of "")
  entry_of [] = ("", of "")

  entry_reads_back : (e : String × V) → entry_of (unpack (entry_text e)) ≡ e
  unfolding entry_text entry_of
  entry_reads_back (key, v) = rw (unpack-pack, of-to v) refl

  unfoldable pub map_text : Dict V → String
  unfolding entry_text
  map_text entries = pack (map entry_text (sorted entries))

  unfoldable pub map_of : String → Dict V
  unfolding entry_of
  map_of text = map (λ t. entry_of (unpack t)) (unpack text)

  pub map_reads_back : (entries : Dict V) → map_of (map_text entries) ≡ sorted entries
  unfolding map_of map_text
  map_reads_back entries =
      list_reads_back entry_text (λ t. entry_of (unpack t)) entry_reads_back (sorted entries)
