-- ===== src/Qat/Plugin/History.antt =====
-- The states that a run of cmd/kubelet-qat-plugin passes through.
use intel_resource_drivers_f.Base.{
  ◌≡◌, refl, Bool, false, ◌||◌, String, List, [], ◌∷◌, Option, none, some, Dict, All, Result, ok,
  err, insert,
}
use intel_resource_drivers_f.Kubelet.{ResourceClaim, Device}
use intel_resource_drivers_f.Qat.Types.{PfDevice}
use intel_resource_drivers_f.Helpers.{ClaimPreparations}
use intel_resource_drivers_f.Qat.Plugin.Start.{Unallocated, start_pfs-Unallocated}
use intel_resource_drivers_f.Qat.Alloc.Partition.{IsPartitioned}
use intel_resource_drivers_f.Qat.Reconfig.Keeps.{IsIdle-IsPartitioned}
use intel_resource_drivers_f.Qat.Plugin.{
  NodeState, Env, Error, resource_devices, start_pfs, prepare_resource_claims, unprepare,
  unprepare_resource_claims,
}
use intel_resource_drivers_f.Qat.Plugin.Partitioned.{
  Partitioned, prepare_resource_claim-Partitioned, unprepare-Partitioned,
}

-- A state is reached from a start by `newDriver`, with any claims in the file, by calls of the kubelet
-- and by what other programs do to the system.
pub data Reachable {W : Type 0} (env : Env W) : NodeState W → Type 0 where
  started :
      (config : Option (Dict String)) (claims : ClaimPreparations) (node_name : String) (w : W)
      (ps : List PfDevice)
      → (start_pfs env config w).0 ≡ some ps
      → Reachable env (record {
        pfs = ps;
        allocatable = resource_devices ps [];
        prepared = claims;
        node_name = node_name;
        world = (start_pfs env config w).1;
      })
  prepared :
      (claims : List ResourceClaim) (s : NodeState W)
      → Reachable env s
      → Reachable env (prepare_resource_claims env claims [] s).1
  unprepared :
      (uids : List String) (s : NodeState W)
      → Reachable env s
      → Reachable env (unprepare_resource_claims env uids [] false s).2
  disturbed : (w : W) (s : NodeState W) → Reachable env s → Reachable env (record s { world = w })

Unallocated-IsPartitioned : (ps : List PfDevice) → All Unallocated ps → All IsPartitioned ps
Unallocated-IsPartitioned [] u = tt
Unallocated-IsPartitioned (p ∷ ps) u = (
  IsIdle-IsPartitioned p.services p.allow_reconfiguration p
      (record { unallocated = u.0.0; keyed = u.0.1; services = refl; allows = refl }),
  Unallocated-IsPartitioned ps u.1,
)

module _ {W : Type 0} (env : Env W) where
  prepare_resource_claims-Partitioned :
      (claims : List ResourceClaim) (response : Dict (Result Error (List Device))) (s : NodeState W)
      → Partitioned s
      → Partitioned (prepare_resource_claims env claims response s).1
  unfolding prepare_resource_claims
  prepare_resource_claims-Partitioned [] response s x = x
  prepare_resource_claims-Partitioned (claim ∷ claims) response s x =
      prepare_resource_claims-Partitioned claims _ _
        (prepare_resource_claim-Partitioned env claim s x)

  unprepare_resource_claims-Partitioned :
      (uids : List String) (response : Dict (Option Error)) (found : Bool) (s : NodeState W)
      → Partitioned s
      → Partitioned (unprepare_resource_claims env uids response found s).2
  unfolding unprepare_resource_claims
  unprepare_resource_claims-Partitioned [] response found s x = x
  unprepare_resource_claims-Partitioned (uid ∷ uids) response found s x =
      go (unprepare env uid s) (unprepare-Partitioned env uid s x)
        (λ r f s' y. unprepare_resource_claims-Partitioned uids r f s' y)
    where
      go :
          (r : Result Error Bool × NodeState W)
          → Partitioned r.1
          → ((response : Dict (Option Error)) (f : Bool) (s' : NodeState W)
              → Partitioned s'
              → Partitioned (unprepare_resource_claims env uids response f s').2)
          → Partitioned
              (elim r.0 as (λ _. Dict (Option Error) × Bool × NodeState W) [
                | err e ↦
                    unprepare_resource_claims env uids (insert uid (some e) response) found r.1
                | ok updated ↦
                    unprepare_resource_claims env uids
                      (insert uid none response)
                      (found || updated)
                      r.1
              ]).2
      go (err e, s') y f = f _ _ s' y
      go (ok b, s') y f = f _ _ s' y

  -- In every state that is reached from a start as `newDriver` makes it, with any claims in the
  -- file, by calls that prepare and unprepare claims and by changes of the system from outside, no
  -- VF of a PF is both available and held or held by two claims, and each is filed under its UID.
  pub Reachable-Partitioned : (s : NodeState W) → Reachable env s → Partitioned s
  Reachable-Partitioned _ (Reachable.started config claims node_name w ps e) =
      Unallocated-IsPartitioned ps (start_pfs-Unallocated env config w ps e)
  Reachable-Partitioned _ (Reachable.prepared claims s r) =
      prepare_resource_claims-Partitioned claims [] s (Reachable-Partitioned s r)
  Reachable-Partitioned _ (Reachable.unprepared uids s r) =
      unprepare_resource_claims-Partitioned uids [] false s (Reachable-Partitioned s r)
  Reachable-Partitioned _ (Reachable.disturbed w s r) = Reachable-Partitioned s r
