-- ===== src/Gpu/Claims/Restart.antt =====
-- What the checkpoint file of cmd/kubelet-gpu-plugin/claimPreparations.go keeps over a restart.
use intel_resource_drivers_f.Base.{
  ◌≡◌, refl, true, false, String, none, some, ok, arith, SameEntries, Option-cases, Bool-cases, inl,
  inr,
}
use intel_resource_drivers_f.Gpu.Claims.{
  Checkpoint, ClaimPreparations, Codec, Disk, checkpoint_kind, checkpoint_api_version,
  unmarshal_claim_preparations, write_prepared_claims, read_prepared_claims,
  get_or_create_prepared_claims,
}

-- What the encoder writes, it reads back, with the claims of the map in an order of its own: encoding/json
-- writes a map by the order of its keys. A text is a sequence of Unicode characters, which JSON keeps.
abbrev pub Lossless : Codec → Type 0
Lossless codec =
    (cp : Checkpoint) (text : String)
    → codec.marshal cp ≡ some text
    → (claims : ClaimPreparations) × (codec.unmarshal text
        ≡ (true, record cp { prepared_claims = claims }))
      × SameEntries claims cp.prepared_claims

-- A file that has been written is there, and has the text that was written.
abbrev pub Durable : {W : Type 0} → Disk W → Type 0
Durable {W} disk =
    (path text : String) (w : W)
    → (disk.write_file path text w).0 ≡ true
    → (disk.is_missing path (disk.write_file path text w).1 ≡ false)
      × (disk.read_file path (disk.write_file path text w).1 ≡ some text)

abbrev checkpoint : ClaimPreparations → Checkpoint
checkpoint claims = record {
  kind = checkpoint_kind;
  api_version = checkpoint_api_version;
  prepared_claims = claims;
}

module _ {W : Type 0} (codec : Codec) (disk : Disk W) (path : String) where
  -- A start reads these claims, each one under its UID, and changes nothing.
  abbrev pub ReadsAs : ClaimPreparations → W → Type 0
  ReadsAs claims w =
      (again : ClaimPreparations) × (get_or_create_prepared_claims codec disk path w
        ≡ (ok again, w))
      × SameEntries again claims

  module _ (lossless : Lossless codec) (durable : Durable disk) where
    unmarshal-marshal :
        (claims : ClaimPreparations) (text : String)
        → codec.marshal (checkpoint claims) ≡ some text
        → (again : ClaimPreparations) × (unmarshal_claim_preparations codec text ≡ ok again)
          × SameEntries again claims
    unfolding unmarshal_claim_preparations
    unmarshal-marshal claims text e =
        let (again, f, same) = lossless (checkpoint claims) text e in
        (again, rw (f, unmarshal_claim_preparations) refl, same)

    -- Let the encoder read back what it writes, up to the order of the claims, and the disk keep what
    -- was written. Claims that are written without an error are the claims that the next start reads,
    -- and reading them changes nothing.
    pub get_or_create-write :
        (claims : ClaimPreparations) (w : W)
        → (write_prepared_claims codec disk path claims w).0 ≡ none
        → ReadsAs claims (write_prepared_claims codec disk path claims w).1
    unfolding write_prepared_claims get_or_create_prepared_claims read_prepared_claims
    get_or_create-write claims w h = elim (Option-cases (codec.marshal (checkpoint claims))) [
      | inl e ↦ absurd (ground (arith, h, e))
      | inr (text, e) ↦ elim (Bool-cases (disk.write_file path text w).0) [
        | inr t ↦ absurd (ground (arith, h, e, t))
        | inl t ↦
            let (again, f, same) = unmarshal-marshal claims text e in
            (
              again,
              ground (arith, h, e, t, (durable path text w t).0, (durable path text w t).1, f),
              same,
            )
      ]
    ]
