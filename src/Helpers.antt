-- ===== src/Helpers.antt =====
-- pkg/helpers/node_state.go: the prepared claims of the QAT and Gaudi drivers, and the file that keeps
-- them. The file system and the JSON encoder are interfaces.
pub mod Roots
pub mod Uids
pub mod Restart
mod Tests
use intel_resource_drivers_f.Base.{
  Bool, String, List, [], Option, none, some, Dict, lookup, delete, Result, ok, err, if◌then◌else◌,
}
use intel_resource_drivers_f.Kubelet.{Device}

-- A `PrepareResult` that is kept has no error, so it is its devices.
abbrev pub ClaimPreparations : Type 0
ClaimPreparations = Dict (List Device)

pub record Codec : Type 0 where
  pub marshal : ClaimPreparations → Option String
  pub unmarshal : String → Option ClaimPreparations

-- The Boolean answers are true on success.
pub record Files (W : Type 0) : Type 0 where
  pub is_missing : String → W → Bool
  pub create_file : String → W → Bool × W
  pub write_string : String → String → W → Bool × W
  pub read_file : String → W → Option String
  pub write_file : String → String → W → Bool × W

pub data FileError : Type 0 where
  create_failed encoding_failed write_failed read_failed parse_failed : FileError

module _ (codec : Codec) {W : Type 0} (files : Files W) (path : String) where
  unfoldable pub write_prepared_claims : ClaimPreparations → W → Option FileError × W
  write_prepared_claims claims w = elim (codec.marshal claims) [
    | none ↦ (some FileError.encoding_failed, w)
    | some text ↦
        let (written, w') = files.write_file path text w in
        (if written then none else some FileError.write_failed, w')
  ]

  unfoldable pub read_prepared_claims : W → Result FileError ClaimPreparations
  read_prepared_claims w = elim (files.read_file path w) [
    | none ↦ err FileError.read_failed
    | some text ↦ elim (codec.unmarshal text) [
      | none ↦ err FileError.parse_failed
      | some claims ↦ ok claims
    ]
  ]

  -- The branch of `GetOrCreatePreparedClaims` for a file that is missing.
  create_prepared_claims : W → Result FileError ClaimPreparations × W
  create_prepared_claims w =
      let (created, w1) = files.create_file path w in
      let (written, w2) = files.write_string path "{}" w1 in
      if created
      then (if written then ok [] else err FileError.write_failed, w2)
      else (err FileError.create_failed, w1)

  unfoldable pub get_or_create_prepared_claims : W → Result FileError ClaimPreparations × W
  unfolding create_prepared_claims read_prepared_claims
  get_or_create_prepared_claims w =
      if files.is_missing path w then create_prepared_claims w else (read_prepared_claims w, w)

  -- `NodeState.Unprepare`, of the prepared claims.
  unfoldable pub unprepare_claim :
      String → ClaimPreparations → W → Option FileError × ClaimPreparations × W
  unfolding write_prepared_claims
  unprepare_claim claim_uid prepared w = elim (lookup claim_uid prepared) [
    | none ↦ (none, prepared, w)
    | some _ ↦
        let prepared' = delete claim_uid prepared in
        let (e, w') = write_prepared_claims prepared' w in (e, prepared', w')
  ]
