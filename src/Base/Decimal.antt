-- ===== src/Base/Decimal.antt =====
-- `%d` of `fmt.Sprintf`, `strconv.FormatUint` and `strconv.ParseUint` in base 10, and `strings.Join`, on
-- 64-bit numbers; what is written is read back.
use Prim.Native.Char.{Char, code}
use Prim.Native.Nat.{ℕ, zero, suc, ◌+◌, ◌*◌, ◌/◌, ◌%◌, ◌^◌, ◌<◌, ◌-◌}
use Prim.Native.String.{String, ◌++◌ as str_append}
use Prim.Native.String.append
use mathlib.Core.Path.{◌≡◌, refl, sym, ap, ◌∙◌}
use mathlib.Core.Logic.{◌≢◌, inl, inr}
use mathlib.Core.Bool.{Bool, true, false, ◌&&◌, not}
use mathlib.Core.List.{List, [], ◌∷◌}
use mathlib.Core.Option.{Option, none, some}
use native.Mathlib.Omega.{arith}
use intel_resource_drivers_f.Base.Tests.{if◌then◌else◌, ltb, ◌==◌, All, Bool-cases}
use intel_resource_drivers_f.Base.Text.{digits, digits_from, split}

digit_text : ℕ → String
digit_text zero = "0"
digit_text (suc zero) = "1"
digit_text (suc (suc zero)) = "2"
digit_text (suc (suc (suc zero))) = "3"
digit_text (suc (suc (suc (suc zero)))) = "4"
digit_text (suc (suc (suc (suc (suc zero))))) = "5"
digit_text (suc (suc (suc (suc (suc (suc zero)))))) = "6"
digit_text (suc (suc (suc (suc (suc (suc (suc zero))))))) = "7"
digit_text (suc (suc (suc (suc (suc (suc (suc (suc zero)))))))) = "8"
digit_text _ = "9"

decimal_from : ℕ → ℕ → String
unfolding digit_text
decimal_from zero n = ""
decimal_from (suc fuel) n =
    let higher = decimal_from fuel (n / 10) in
    if ltb n 10 then digit_text n else str_append higher (digit_text (n % 10))

-- Twenty digits hold every 64-bit number.
unfoldable pub decimal : ℕ → String
unfolding decimal_from
decimal n = decimal_from 20 n

unfoldable pub parse_uint : String → Option ℕ
parse_uint s = elim (digits s) [ none ↦ none | some n ↦ if ltb n (2 ^ 64) then some n else none ]

pub parse_uint_fits : (s : String) (n : ℕ) → parse_uint s ≡ some n → n < 2 ^ 64
unfolding parse_uint
parse_uint_fits s n h = ground (arith, h)

unfoldable pub join : String → List String → String
join sep [] = ""
join sep (s ∷ []) = s
join sep (s ∷ t ∷ ss) = str_append s (str_append sep (join sep (t ∷ ss)))

abbrev shifted : Option ℕ → ℕ → Option ℕ
shifted none d = none
shifted (some n) d = some (10 * n + d)

last_digit : (m d : ℕ) → d < 10 → digits_from m (digit_text d) ≡ some (10 * m + d)
unfolding digits_from digit_text
last_digit m zero h = refl
last_digit m (suc zero) h = refl
last_digit m (suc (suc zero)) h = refl
last_digit m (suc (suc (suc zero))) h = refl
last_digit m (suc (suc (suc (suc zero)))) h = refl
last_digit m (suc (suc (suc (suc (suc zero))))) h = refl
last_digit m (suc (suc (suc (suc (suc (suc zero)))))) h = refl
last_digit m (suc (suc (suc (suc (suc (suc (suc zero))))))) h = refl
last_digit m (suc (suc (suc (suc (suc (suc (suc (suc zero)))))))) h = refl
last_digit m (suc (suc (suc (suc (suc (suc (suc (suc (suc zero))))))))) h = refl
last_digit m (suc (suc (suc (suc (suc (suc (suc (suc (suc (suc d)))))))))) h = absurd (omega arith)

digits_from-append :
    (m d : ℕ) (s : String)
    → d < 10
    → digits_from m (str_append s (digit_text d)) ≡ shifted (digits_from m s) d
unfolding digits_from
digits_from-append m d String.[] h = rw append.nil (last_digit m d h)
digits_from-append m d (String.◌∷◌ c s) h =
    rw append.cons (ground (arith, digits_from-append (10 * m + (code c - 48)) d s h))

digits_from-decimal_from :
    (fuel n : ℕ) → n < 10 ^ suc fuel → digits_from 0 (decimal_from (suc fuel) n) ≡ some n
unfolding decimal_from
digits_from-decimal_from zero n h = ground (arith, h, last_digit 0 n h)
digits_from-decimal_from (suc fuel) n h = elim (Bool-cases (ltb n 10)) [
  | inl t ↦ ground (arith, t, last_digit 0 n (ground (arith, t)))
  | inr t ↦
      let q : n / 10 < 10 ^ suc fuel = omega (arith, h) in
      let ih : digits_from 0 (decimal_from (suc fuel) (n / 10)) ≡ some (n / 10) =
        digits_from-decimal_from fuel (n / 10) q in
      let step = digits_from-append 0 (n % 10) (decimal_from (suc fuel) (n / 10)) (omega arith) in
      ground (arith, t, ih, step)
]

digit_text_ne : (d : ℕ) → d < 10 → digit_text d ≢ ""
unfolding digits_from
digit_text_ne d h e =
    let one : digits_from 1 (digit_text d) ≡ some (10 + d) = ground (arith, last_digit 1 d h) in
    absurd (ground (arith, sym one ∙ ap (digits_from 1) e))

abbrev is_empty : String → Bool
is_empty String.[] = true
is_empty (String.◌∷◌ c s) = false

append_ne : (s : String) (d : ℕ) → d < 10 → str_append s (digit_text d) ≢ ""
append_ne String.[] d h e = digit_text_ne d h (rw append.nil at e)
append_ne (String.◌∷◌ c s) d h e =
    let cons : String.◌∷◌ c (str_append s (digit_text d)) ≡ "" =
      sym (append.cons c s (digit_text d)) ∙ e in
    absurd (ground (arith, ap is_empty cons))

decimal_from_ne : (fuel n : ℕ) → decimal_from (suc fuel) n ≢ ""
unfolding decimal_from
decimal_from_ne fuel n = elim (Bool-cases (ltb n 10)) [
  | inl t ↦ rw t (digit_text_ne n (ground (arith, t)))
  | inr t ↦ rw t (append_ne (decimal_from fuel (n / 10)) (n % 10) (omega arith))
]

digits_lem : (s : String) → s ≢ "" → digits s ≡ digits_from 0 s
unfolding digits
digits_lem String.[] h = absurd (h refl)
digits_lem (String.◌∷◌ c s) h = refl

-- A 64-bit number that is written in base 10 is read back.
pub parse_uint-decimal : (n : ℕ) → n < 2 ^ 64 → parse_uint (decimal n) ≡ some n
unfolding parse_uint decimal
parse_uint-decimal n h =
    let e : digits_from 0 (decimal_from 20 n) ≡ some n =
      digits_from-decimal_from 19 n (omega (arith, h)) in
    ground (arith, h, e, digits_lem (decimal_from 20 n) (decimal_from_ne 19 n))

-- Does no character of the text stand for the separator?
abbrev pub free_of : ℕ → String → Bool
free_of sep String.[] = true
free_of sep (String.◌∷◌ c s) = not (code c == sep) && free_of sep s

split_free : (sep : ℕ) (s : String) → free_of sep s ≡ true → split sep s ≡ s ∷ []
unfolding split
split_free sep String.[] h = refl
split_free sep (String.◌∷◌ c s) h = ground (arith, split_free sep s, h)

split-append :
    (sep : ℕ) (c : Char) (s t : String)
    → code c ≡ sep
    → free_of sep s ≡ true
    → split sep (str_append s (String.◌∷◌ c t)) ≡ s ∷ split sep t
unfolding split
split-append sep c String.[] t q h = rw append.nil (ground (arith, q))
split-append sep c (String.◌∷◌ d s) t q h =
    rw append.cons (ground (arith, split-append sep c s t q, h))

comma : (t : String) → str_append "," t ≡ String.◌∷◌ "," t
comma t = append.cons "," "" t ∙ ap (String.◌∷◌ ",") (append.nil t)

-- What is joined with commas, free of commas, is split again.
pub split-join :
    (s : String) (ss : List String)
    → All (λ x. free_of b',' x ≡ true) (s ∷ ss)
    → split b',' (join "," (s ∷ ss)) ≡ s ∷ ss
unfolding join
split-join s [] h = split_free b',' s h.0
split-join s (t ∷ ss) h =
    rw comma
      (split-append b',' "," s (join "," (t ∷ ss)) refl h.0 ∙ ap (λ r. s ∷ r) (split-join t ss h.1))

digits_from-free_of : (m n : ℕ) (s : String) → digits_from m s ≡ some n → free_of b',' s ≡ true
unfolding digits_from
digits_from-free_of m n String.[] h = refl
digits_from-free_of m n (String.◌∷◌ c s) h =
    ground (arith, digits_from-free_of (10 * m + (code c - 48)) n s, h)

pub decimal-free_of : (n : ℕ) → n < 2 ^ 64 → free_of b',' (decimal n) ≡ true
unfolding decimal
decimal-free_of n h =
    digits_from-free_of 0 n (decimal_from 20 n) (digits_from-decimal_from 19 n (omega (arith, h)))
