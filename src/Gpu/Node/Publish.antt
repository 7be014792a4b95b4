-- ===== src/Gpu/Node/Publish.antt =====
-- `needToPublishSlice` in the loop of `Prepare` of cmd/kubelet-gpu-plugin/node_state.go.
use intel_resource_drivers_f.Base.{
  ◌≡◌, refl, ◌∙◌, sym, ap, Result, ok, err, Bool, true, false, ◌&&◌, not, List, ◌∷◌, some, lookup,
  arith,
}
use intel_resource_drivers_f.Kubelet.{AllocationResult, ResourceClaim}
use intel_resource_drivers_f.Gpu.Types.{DeviceInfo}
use intel_resource_drivers_f.Gpu.Binding.{Error}
use intel_resource_drivers_f.Gpu.Claims.{PreparedDevice}
use intel_resource_drivers_f.Gpu.Node.{
  NodeState, Env, is_ours, admin_of, is_device_used_exclusively_already, with_device, prepare_one,
  prepare_loop,
}

module _ {W : Type 0} (env : Env W) where
  prepare_one_forgets :
      (claim : ResourceClaim) (a : AllocationResult) (s : NodeState W) (g : DeviceInfo)
      (earlier other : Bool)
      → (not (admin_of a)
          && is_device_used_exclusively_already a.device a.pool claim.uid s.prepared)
        ≡ false
      → lookup a.device s.allocatable ≡ some g
      → prepare_one env claim a earlier s ≡ prepare_one env claim a other s
  unfolding prepare_one
  prepare_one_forgets claim a s g earlier other t e = rw (t, e, prepare_one) refl

  -- The loop from a device that `Prepare` takes.
  abbrev after_one :
      ResourceClaim
      → List AllocationResult
      → Result Error PreparedDevice × Bool × NodeState W
      → Result Error (List PreparedDevice) × Bool × NodeState W
  after_one claim rest (err e, need, s) = (err e, need, s)
  after_one claim rest (ok d, need, s) = with_device env d (prepare_loop env claim rest need s)

  prepare_loop_lem :
      (claim : ResourceClaim) (a : AllocationResult) (rest : List AllocationResult) (need : Bool)
      (s : NodeState W)
      → is_ours env s a ≡ true
      → prepare_loop env claim (a ∷ rest) need s
        ≡ after_one claim rest (prepare_one env claim a need s)
  unfolding prepare_loop
  prepare_loop_lem claim a rest need s o = ground (arith, o)

  -- At a device that `Prepare` takes, of this driver and node, not in use and allocatable, the loop
  -- ends the same whatever the devices before it said of publishing.
  pub prepare_loop_forgets :
      (claim : ResourceClaim) (a : AllocationResult) (rest : List AllocationResult)
      (s : NodeState W) (g : DeviceInfo) (earlier other : Bool)
      → is_ours env s a ≡ true
      → (not (admin_of a)
          && is_device_used_exclusively_already a.device a.pool claim.uid s.prepared)
        ≡ false
      → lookup a.device s.allocatable ≡ some g
      → prepare_loop env claim (a ∷ rest) earlier s ≡ prepare_loop env claim (a ∷ rest) other s
  prepare_loop_forgets claim a rest s g earlier other o t e =
      prepare_loop_lem claim a rest earlier s o
      ∙ ap (after_one claim rest) (prepare_one_forgets claim a s g earlier other t e)
      ∙ sym (prepare_loop_lem claim a rest other s o)
