-- ===== src/Gpu/Claims.antt =====
-- cmd/kubelet-gpu-plugin/claimPreparations.go: the prepared claims, and the checkpoint file that keeps
-- them over a restart. The file system and the JSON encoder are interfaces.
pub mod Restart
use intel_resource_drivers_f.Base.{
  Bool, true, false, ◌&&◌, String, List, [], ◌∷◌, map, Option, none, some, Dict, insert, Result, ok,
  err, if◌then◌else◌, str_eq,
}
use intel_resource_drivers_f.Kubelet.{Device}

pub record PreparedDevice : Type 0 where
  pub admin_access : Bool
  pub kubeletplugin_device : Device

-- `ClaimPreparation`, by its one field.
abbrev pub ClaimPreparation : Type 0
ClaimPreparation = List PreparedDevice

-- Mapped by claim UID.
abbrev pub ClaimPreparations : Type 0
ClaimPreparations = Dict ClaimPreparation

pub record Checkpoint : Type 0 where
  pub kind : String
  pub api_version : String
  pub prepared_claims : ClaimPreparations

-- `json.Marshal`, and `json.Unmarshal` at the two types that the code reads: at the first one, whether
-- it succeeds, and what it leaves in the checkpoint either way.
pub record Codec : Type 0 where
  pub marshal : Checkpoint → Option String
  pub unmarshal : String → Bool × Checkpoint
  pub unmarshal_unversioned : String → Option (Dict (List Device))

pub record Disk (W : Type 0) : Type 0 where
  pub is_missing : String → W → Bool
  pub read_file : String → W → Option String
  pub write_file : String → String → W → Bool × W

pub data FileError : Type 0 where
  encoding_failed write_failed read_failed parse_failed : FileError

abbrev pub checkpoint_kind : String
checkpoint_kind = "PreparedClaimsCheckpoint"

abbrev pub checkpoint_api_version : String
checkpoint_api_version = "checkpoint.gpu.intel.com/v1"

-- `PrepareResult`
unfoldable pub prepare_result : ClaimPreparation → List Device
prepare_result devices = map (λ d. d.kubeletplugin_device) devices

-- A claim of the oldest format, where no device has admin access.
unfoldable pub upgrade : List Device → ClaimPreparation
upgrade devices = map (λ d. record { admin_access = false; kubeletplugin_device = d }) devices

upgrade_from : ClaimPreparations → Dict (List Device) → ClaimPreparations
upgrade_from claims [] = claims
upgrade_from claims ((uid, devices) ∷ old) = upgrade_from (insert uid (upgrade devices) claims) old

module _ (codec : Codec) where
  unversioned : ClaimPreparations → String → Result FileError ClaimPreparations
  unfolding upgrade_from
  unversioned claims text = elim (codec.unmarshal_unversioned text) [
    | none ↦ err FileError.parse_failed
    | some old ↦ ok (upgrade_from claims old)
  ]

  -- `UnmarshalClaimPreparations`: a text of no known kind is read as the oldest format, into the map
  -- that the first attempt leaves.
  unfoldable pub unmarshal_claim_preparations : String → Result FileError ClaimPreparations
  unfolding unversioned
  unmarshal_claim_preparations text =
      let (parsed, cp) = codec.unmarshal text in
      if parsed && str_eq cp.kind checkpoint_kind
      then ok cp.prepared_claims
      else unversioned cp.prepared_claims text

  module _ {W : Type 0} (disk : Disk W) (path : String) where
    -- `WritePreparedClaimsToFile`: the error, if any, and the state after it.
    unfoldable pub write_prepared_claims : ClaimPreparations → W → Option FileError × W
    write_prepared_claims claims w =
        elim (codec.marshal (record {
          kind = checkpoint_kind;
          api_version = checkpoint_api_version;
          prepared_claims = claims;
        })) [
          | none ↦ (some FileError.encoding_failed, w)
          | some text ↦
              let (written, w') = disk.write_file path text w in
              (if written then none else some FileError.write_failed, w')
        ]

    unfoldable pub read_prepared_claims : W → Result FileError ClaimPreparations
    read_prepared_claims w = elim (disk.read_file path w) [
      | none ↦ err FileError.read_failed
      | some text ↦ unmarshal_claim_preparations text
    ]

    -- `GetOrCreatePreparedClaims`
    unfoldable pub get_or_create_prepared_claims : W → Result FileError ClaimPreparations × W
    unfolding read_prepared_claims write_prepared_claims
    get_or_create_prepared_claims w =
        let (e, w') = write_prepared_claims [] w in
        if disk.is_missing path w
        then ((elim e [ none ↦ ok [] | some x ↦ err x ]), w')
        else (read_prepared_claims w, w)
