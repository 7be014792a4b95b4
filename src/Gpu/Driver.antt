-- ===== src/Gpu/Driver.antt =====
-- The calls of the kubelet in cmd/kubelet-gpu-plugin/driver.go: `PrepareResourceClaims` and
-- `UnprepareResourceClaims`. Publishing the ResourceSlice is the Boolean beside the answers.
pub mod History
use intel_resource_drivers_f.Base.{
  Bool, true, false, ◌||◌, String, List, [], ◌∷◌, Option, none, some, Dict, insert, Result, ok, err,
}
use intel_resource_drivers_f.Kubelet.{ResourceClaim, Device}
use intel_resource_drivers_f.Gpu.Binding.{Error}
use intel_resource_drivers_f.Gpu.Node.{NodeState, Env, prepare_resource_claim, unprepare}

module _ {W : Type 0} (env : Env W) where
  -- The answers by claim UID.
  unfoldable pub prepare_resource_claims :
      List ResourceClaim
      → Dict (Result Error (List Device))
      → Bool
      → NodeState W
      → Dict (Result Error (List Device)) × Bool × NodeState W
  unfolding prepare_resource_claim
  prepare_resource_claims [] response need s = (response, need, s)
  prepare_resource_claims (claim ∷ claims) response need s =
      let (r, publish, s') = prepare_resource_claim env claim s in
      prepare_resource_claims claims (insert claim.uid r response) (need || publish) s'

  unfoldable pub unprepare_resource_claims :
      List String
      → Dict (Option Error)
      → Bool
      → NodeState W
      → Dict (Option Error) × Bool × NodeState W
  unfolding unprepare
  unprepare_resource_claims [] response need s = (response, need, s)
  unprepare_resource_claims (uid ∷ uids) response need s =
      let (e, publish, s') = unprepare env uid s in
      unprepare_resource_claims uids (insert uid e response) (need || publish) s'
