-- ===== src/Helpers/Uids/RoundTrip.antt =====
-- A UID is read back as the address and id that it was made of.
use Prim.Native.Char.{Char, code}
use Prim.Native.String.{◌++◌ as str_append, len, slice}
use Prim.Native.String.append
use Prim.Native.String.len
use text.Mathlib.TextPositions.{len-append, slice-append_left, slice-append_right}
use text.Mathlib.TextLemmas.{append_assoc}
use intel_resource_drivers_f.Base.{
  ℕ, suc, ◌+◌, ◌≡◌, refl, subst, ap, ◌∙◌, String, arith, ◌==◌, if◌then◌else◌, replace_all, true,
  free_of,
}
use intel_resource_drivers_f.Helpers.Uids.{
  prefixed, device_uid_from_pci_info, replace, pci_info_from_device_uid,
}

replace_all-append :
    (old : ℕ) (new : Char) (s t : String)
    → replace_all old new (str_append s t)
      ≡ str_append (replace_all old new s) (replace_all old new t)
unfolding replace_all
replace_all-append old new String.[] t = rw (append.nil, append.nil) refl
replace_all-append old new (String.◌∷◌ c s) t =
    rw (append.cons, append.cons)
      (ap (String.◌∷◌ (if code c == old then new else c)) (replace_all-append old new s t))

replace_all_free :
    (old : ℕ) (new : Char) (s : String) → free_of old s ≡ true → replace_all old new s ≡ s
unfolding replace_all
replace_all_free old new String.[] h = refl
replace_all_free old new (String.◌∷◌ c s) h = ground (arith, h, replace_all_free old new s)

replace-append :
    (old : ℕ) (new : Char) (n : ℕ) (s t : String)
    → free_of old s ≡ true
    → replace old new (suc n) (str_append s t) ≡ str_append s (replace old new (suc n) t)
unfolding replace
replace-append old new n String.[] t h = rw (append.nil, append.nil) refl
replace-append old new n (String.◌∷◌ c s) t h =
    rw (append.cons, append.cons) (ground (arith, h, replace-append old new n s t))

-- Behind a text that is free of the old character, one step.
replace_step :
    (old : ℕ) (new : Char) (n : ℕ) (s t : String) (o : Char)
    → free_of old s ≡ true
    → replace old new (suc n) (str_append s (String.◌∷◌ o t))
      ≡ str_append s (
          if code o == old
          then String.◌∷◌ new (replace old new n t)
          else String.◌∷◌ o (replace old new (suc n) t))
unfolding replace
replace_step old new n s t o h = replace-append old new n s (String.◌∷◌ o t) h

replace_all_step :
    (old : ℕ) (new : Char) (s t : String) (o : Char)
    → free_of old s ≡ true
    → replace_all old new (str_append s (String.◌∷◌ o t))
      ≡ str_append s (String.◌∷◌ (if code o == old then new else o) (replace_all old new t))
unfolding replace_all
replace_all_step old new s t o h =
    replace_all-append old new s (String.◌∷◌ o t)
    ∙ ap (λ u. str_append u (replace_all old new (String.◌∷◌ o t))) (replace_all_free old new s h)

replace_none : (old : ℕ) (new : Char) (s : String) → replace old new 0 s ≡ s
unfolding replace
replace_none old new String.[] = refl
replace_none old new (String.◌∷◌ c s) = refl

-- Four parts with a character between them.
abbrev pub in_parts : Char → Char → Char → String → String → String → String → String
in_parts x y z a b c d =
    str_append a (String.◌∷◌ x (str_append b (String.◌∷◌ y (str_append c (String.◌∷◌ z d)))))

-- A part of an address has none of the separators.
abbrev pub IsPart : String → Type 0
IsPart s = (free_of b':' s ≡ true) × (free_of b'.' s ≡ true) × (free_of b'-' s ≡ true)

module _ (a b c d : String) (pa : IsPart a) (pb : IsPart b) (pc : IsPart c) (pd : IsPart d) where
  hyphens :
      replace_all b'.' "-" (replace_all b':' "-" (in_parts ":" ":" "." a b c d))
      ≡ in_parts "-" "-" "-" a b c d
  hyphens =
      rw
        (
          replace_all_step b':' "-" a _ ":" pa.0,
          replace_all_step b':' "-" b _ ":" pb.0,
          replace_all_step b':' "-" c d "." pc.0,
          replace_all_free b':' "-" d pd.0,
          replace_all_step b'.' "-" a _ "-" pa.1,
          replace_all_step b'.' "-" b _ "-" pb.1,
          replace_all_step b'.' "-" c d "." pc.1,
          replace_all_free b'.' "-" d pd.1,
        )
        refl

  no_hyphens :
      replace b'-' "." 1 (replace b'-' ":" 2 (in_parts "-" "-" "-" a b c d))
      ≡ in_parts ":" ":" "." a b c d
  no_hyphens =
      rw
        (
          replace_step b'-' ":" 1 a _ "-" pa.2,
          replace_step b'-' ":" 0 b _ "-" pb.2,
          replace_none b'-' ":" (str_append c (String.◌∷◌ "-" d)),
          replace_step b'-' "." 0 a _ ":" pa.2,
          replace_step b'-' "." 0 b _ ":" pb.2,
          replace_step b'-' "." 0 c d "-" pc.2,
          replace_none b'-' "." d,
        )
        refl

  len-in_parts : len (in_parts "-" "-" "-" a b c d) ≡ len a + len b + len c + len d + 3
  len-in_parts = rw (len-append, len.cons, len-append, len.cons, len-append, len.cons) (omega arith)

  -- Let an address be four parts between two colons and a dot, twelve bytes long, with no colon, dot
  -- or hyphen in a part. The UID that is made of it and a device id is read back as the address and
  -- the id, which has its prefix then.
  pub pci_info-device_uid :
      (pci_id : String)
      → len a + len b + len c + len d ≡ 9
      → pci_info_from_device_uid (device_uid_from_pci_info (in_parts ":" ":" "." a b c d) pci_id)
        ≡ (in_parts ":" ":" "." a b c d, prefixed pci_id)
  unfolding pci_info_from_device_uid device_uid_from_pci_info
  pci_info-device_uid pci_id h =
      let x = in_parts "-" "-" "-" a b c d in
      let id = prefixed pci_id in
      let twelve : len x ≡ 12 = len-in_parts ∙ omega (arith, h) in
      let front : slice (str_append x (str_append "-" id)) 0 12 ≡ x =
        subst (λ (n : ℕ). slice (str_append x (str_append "-" id)) 0 n ≡ x) twelve
          (slice-append_left x (str_append "-" id)) in
      let xs = str_append x "-" in
      let thirteen : len xs ≡ 13 = len-append x "-" ∙ omega (arith, twelve) in
      let right : slice (str_append xs id) (len xs) (len (str_append xs id)) ≡ id =
        ap (slice (str_append xs id) (len xs)) (len-append xs id) ∙ slice-append_right xs id in
      let back : slice (str_append x (str_append "-" id)) 13
            (len (str_append x (str_append "-" id)))
          ≡ id =
        subst
          (λ (n : ℕ).
            slice (str_append x (str_append "-" id)) n (len (str_append x (str_append "-" id)))
            ≡ id)
          thirteen
          (subst (λ (u : String). slice u (len xs) (len u) ≡ id) (append_assoc x "-" id) right) in
      rw (hyphens, front, back, no_hyphens) refl
