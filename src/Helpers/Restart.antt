-- ===== src/Helpers/Restart.antt =====
-- What the claims file of pkg/helpers/node_state.go keeps over a restart.
use intel_resource_drivers_f.Base.{
  ◌≡◌, inl, inr, true, false, String, List, [], none, some, ok, arith, SameEntries, ◌≢◌,
  lookup-delete_ne, lookup, delete, lookup-delete_self, Option-cases, Bool-cases,
}
use intel_resource_drivers_f.Kubelet.{Device}
use intel_resource_drivers_f.Helpers.{
  ClaimPreparations, Codec, Files, write_prepared_claims, read_prepared_claims,
  get_or_create_prepared_claims, unprepare_claim,
}

-- What the encoder writes, it reads back, with the claims of the map in an order of its own: encoding/json
-- writes a map by the order of its keys. A text is a sequence of Unicode characters, which JSON keeps.
abbrev pub Lossless : Codec → Type 0
Lossless codec =
    (claims : ClaimPreparations) (text : String)
    → codec.marshal claims ≡ some text
    → (again : ClaimPreparations) × (codec.unmarshal text ≡ some again) × SameEntries again claims

-- A file that has been written, or created and written, is there and has the text that was written.
pub record Durable {W : Type 0} (files : Files W) : Type 0 where
  pub written :
      (path text : String) (w : W)
      → (files.write_file path text w).0 ≡ true
      → (files.is_missing path (files.write_file path text w).1 ≡ false)
        × (files.read_file path (files.write_file path text w).1 ≡ some text)
  pub created :
      (path text : String) (w : W)
      → (files.create_file path w).0 ≡ true
      → (files.write_string path text (files.create_file path w).1).0 ≡ true
      → (files.is_missing path (files.write_string path text (files.create_file path w).1).1
          ≡ false)
        × (files.read_file path (files.write_string path text (files.create_file path w).1).1
            ≡ some text)

module _ (codec : Codec) {W : Type 0} (files : Files W) (path : String) where
  -- A start reads these claims, each one under its UID, and changes nothing.
  abbrev pub ReadsAs : ClaimPreparations → W → Type 0
  ReadsAs claims w =
      (again : ClaimPreparations) × (get_or_create_prepared_claims codec files path w
        ≡ (ok again, w))
      × SameEntries again claims

  module _ (lossless : Lossless codec) (durable : Durable files) where
    read-write :
        (claims : ClaimPreparations) (w : W)
        → (write_prepared_claims codec files path claims w).0 ≡ none
        → ReadsAs claims (write_prepared_claims codec files path claims w).1
    unfolding write_prepared_claims get_or_create_prepared_claims read_prepared_claims
    read-write claims w h = elim (Option-cases (codec.marshal claims)) [
      | inl e ↦ absurd (ground (arith, h, e))
      | inr (text, e) ↦ elim (Bool-cases (files.write_file path text w).0) [
        | inr t ↦ absurd (ground (arith, h, e, t))
        | inl t ↦
            let (again, f, same) = lossless claims text e in
            (
              again,
              ground (
                arith,
                h,
                e,
                t,
                (durable.written path text w t).0,
                (durable.written path text w t).1,
                f,
              ),
              same,
            )
      ]
    ]

    -- Let the encoder read back what it writes, up to the order of the claims, and the disk keep
    -- what was written. When `NodeState.Unprepare` of a prepared claim succeeds, a driver that
    -- restarts reads the claims that it left, each one under its UID and no others, and changes
    -- nothing; that claim is gone, and every other claim is as it was before.
    pub get_or_create-unprepare_claim :
        (uid : String) (prepared : ClaimPreparations) (ds : List Device) (w : W)
        → lookup uid prepared ≡ some ds
        → (unprepare_claim codec files path uid prepared w).0 ≡ none
        → ReadsAs
            (unprepare_claim codec files path uid prepared w).1
            (unprepare_claim codec files path uid prepared w).2
          × (lookup uid (unprepare_claim codec files path uid prepared w).1 ≡ none)
          × ((other : String)
              → uid ≢ other
              → lookup other (unprepare_claim codec files path uid prepared w).1
                ≡ lookup other prepared)
    unfolding unprepare_claim
    get_or_create-unprepare_claim uid prepared ds w e h =
        let saved : (write_prepared_claims codec files path (delete uid prepared) w).0 ≡ none =
          ground (arith, e, h) in
        rw (e, unprepare_claim)
          (
            read-write (delete uid prepared) w saved,
            lookup-delete_self uid prepared,
            (λ other n. lookup-delete_ne uid other prepared n),
          )

  module _ (durable : Durable files) where
    -- Let the encoder read empty braces as no claims, and the disk keep what was written. When the
    -- claims file is missing and the first start creates it without an error, that start and the next
    -- one have no claims, and the next one changes nothing.
    pub get_or_create-twice :
        (w : W) (claims : ClaimPreparations)
        → codec.unmarshal "{}" ≡ some []
        → files.is_missing path w ≡ true
        → (get_or_create_prepared_claims codec files path w).0 ≡ ok claims
        → (claims ≡ [])
          × (get_or_create_prepared_claims codec files path
                (get_or_create_prepared_claims codec files path w).1
              ≡ (ok [], (get_or_create_prepared_claims codec files path w).1))
    unfolding get_or_create_prepared_claims read_prepared_claims
    get_or_create-twice w claims braces m h = elim (Bool-cases (files.create_file path w).0) [
      | inr c ↦ absurd (ground (arith, m, h, c))
      | inl c ↦ elim (Bool-cases (files.write_string path "{}" (files.create_file path w).1).0) [
        | inr t ↦ absurd (ground (arith, m, h, c, t))
        | inl t ↦ (
          ground (arith, m, h, c, t),
          ground (
            arith,
            m,
            h,
            c,
            t,
            (durable.created path "{}" w c t).0,
            (durable.created path "{}" w c t).1,
            braces,
          ),
        )
      ]
    ]
