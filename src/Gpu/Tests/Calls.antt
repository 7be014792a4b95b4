-- ===== src/Gpu/Tests/Calls.antt =====
-- Claims that are prepared and unprepared.
use intel_resource_drivers_f.Base.{
  ◌≡◌, refl, ◌≢◌, true, false, String, [], ◌∷◌, none, some, arith, lookup, insert, delete, any, ok,
  err,
}
use intel_resource_drivers_f.Kubelet.{AllocationResult}
use intel_resource_drivers_f.Gpu.Types.{i915, driver_name}
use intel_resource_drivers_f.Gpu.Cdi.{remove_all, remove_devices, get_gpu_specs}
use intel_resource_drivers_f.Gpu.Claims.{
  PreparedDevice, FileError, prepare_result, write_prepared_claims,
}
use intel_resource_drivers_f.Gpu.Binding.{Error}
use intel_resource_drivers_f.Gpu.Node.{
  NodeState, Env, is_device_used_exclusively_already, prepare_loop, record_claim,
  prepare_resource_claim, prepare, unprepare,
}
use intel_resource_drivers_f.Gpu.Node.Publish.{prepare_loop_forgets}
use intel_resource_drivers_f.Gpu.Driver.{prepare_resource_claims, unprepare_resource_claims}
use intel_resource_drivers_f.Gpu.Driver.History.{Reachable, Reachable-Exclusive}
use intel_resource_drivers_f.Gpu.Node.Exclusive.{Exclusive, prepare_resource_claim-Exclusive}
use intel_resource_drivers_f.Gpu.Node.Restart.{
  record_claim-retry, Repeats, Saved, SavedIfOk, prepare_resource_claim-Repeats, unprepare-lookup,
  prepare-Saved, unprepare-Saved,
}
use intel_resource_drivers_f.Gpu.Tests.Encoding.{codec, codec-Lossless}
use intel_resource_drivers_f.Gpu.Tests.{
  Sys, claim, disk, disk-Durable, env, gpu, gpu0_prepared, node,
}

nothing-Exclusive : Exclusive node.prepared
unfolding lookup
nothing-Exclusive c d ds es name pool n e f u = absurd (ground (arith, e))

-- The second claim asks for the device that the first one has.
prepare_resource_claim-Exclusive_example :
    Exclusive
      (prepare_resource_claim env
        (claim "b" driver_name)
        (prepare_resource_claim env (claim "a" driver_name) node).2).2.prepared
prepare_resource_claim-Exclusive_example =
    prepare_resource_claim-Exclusive env (claim "b" driver_name)
      (prepare_resource_claim env (claim "a" driver_name) node).2
      (prepare_resource_claim-Exclusive env (claim "a" driver_name) node nothing-Exclusive)

prepare_resource_claim-Repeats_example :
    Repeats env (claim "a" "qat") (prepare_resource_claim env (claim "a" "qat") node)
prepare_resource_claim-Repeats_example = prepare_resource_claim-Repeats env (claim "a" "qat") node

abbrev gpu1_prepared : PreparedDevice
gpu1_prepared = record gpu0_prepared {
  admin_access = true;
  kubeletplugin_device = record (gpu0_prepared.kubeletplugin_device) { device_name = "gpu1" };
}

-- Two claims have a device, and a third one gets another.
abbrev shared : NodeState Sys
shared = record node { prepared = ("c", gpu1_prepared ∷ []) ∷ ("b", gpu1_prepared ∷ []) ∷ [] }

prepare-Saved_example : SavedIfOk env (prepare env (claim "a" driver_name) shared)
prepare-Saved_example = prepare-Saved env codec-Lossless disk-Durable (claim "a" driver_name) shared

abbrev three_claims : NodeState Sys
three_claims = record node {
  prepared = ("c", gpu1_prepared ∷ []) ∷ ("a", []) ∷ ("b", gpu1_prepared ∷ []) ∷ [];
}

a_unprepared : (unprepare env "a" three_claims).0 ≡ none
unfolding unprepare lookup delete write_prepared_claims remove_devices get_gpu_specs remove_all
a_unprepared = refl

unprepare-lookup_example :
    (lookup "a" (unprepare env "a" three_claims).2.prepared ≡ none)
    × ((other : String)
        → "a" ≢ other
        → lookup other (unprepare env "a" three_claims).2.prepared
          ≡ lookup other three_claims.prepared)
unprepare-lookup_example = unprepare-lookup env "a" three_claims a_unprepared

a_known : lookup "a" three_claims.prepared ≡ some []
unfolding lookup
a_known = refl

unprepare-Saved_example : Saved env (unprepare env "a" three_claims).2
unprepare-Saved_example =
    unprepare-Saved env codec-Lossless disk-Durable "a" [] three_claims a_known a_unprepared

-- A disk that is full.
abbrev full : Env Sys
full = record env { disk = record disk { write_file = λ path text w. (false, w) } }

not_written :
    (write_prepared_claims codec full.disk "preparedClaims.json"
      (insert "a" (gpu0_prepared ∷ []) node.prepared)
      node.world).0
    ≡ some FileError.write_failed
unfolding write_prepared_claims insert
not_written = refl

record_claim-retry_example :
    ((record_claim full "a" (ok (gpu0_prepared ∷ []), true, node)).0 ≡ err Error.checkpoint_failed)
    × (prepare_resource_claim full
          (claim "a" driver_name)
          (record_claim full "a" (ok (gpu0_prepared ∷ []), true, node)).2
        ≡ (
          ok (prepare_result (gpu0_prepared ∷ [])),
          false,
          (record_claim full "a" (ok (gpu0_prepared ∷ []), true, node)).2,
        ))
record_claim-retry_example =
    record_claim-retry full (claim "a" driver_name) (gpu0_prepared ∷ []) true node
      FileError.write_failed not_written

abbrev gpu1_result : AllocationResult
gpu1_result = record {
  request = "gpu";
  driver = driver_name;
  pool = "node";
  device = "gpu1";
  admin_access = none;
}

not_used : is_device_used_exclusively_already "gpu1" "node" "a" node.prepared ≡ false
unfolding is_device_used_exclusively_already any
not_used = refl

gpu1_found : lookup "gpu1" node.allocatable ≡ some (gpu "gpu1" i915)
unfolding lookup
gpu1_found = refl

prepare_loop_forgets_example :
    prepare_loop env (claim "a" driver_name) (gpu1_result ∷ []) true node
    ≡ prepare_loop env (claim "a" driver_name) (gpu1_result ∷ []) false node
prepare_loop_forgets_example =
    prepare_loop_forgets env (claim "a" driver_name) gpu1_result [] node (gpu "gpu1" i915) true
      false refl not_used gpu1_found

Reachable-Exclusive_example :
    Exclusive
      (unprepare_resource_claims env
        ("a" ∷ [])
        []
        false
        (prepare_resource_claims env
          (claim "a" driver_name ∷ claim "b" driver_name ∷ [])
          []
          false
          node).2).2.prepared
Reachable-Exclusive_example =
    Reachable-Exclusive env
      (unprepare_resource_claims env ("a" ∷ []) [] false
        (prepare_resource_claims env (claim "a" driver_name ∷ claim "b" driver_name ∷ []) [] false
          node).2).2
      (Reachable.unprepared ("a" ∷ []) _ (
        Reachable.prepared (claim "a" driver_name ∷ claim "b" driver_name ∷ []) _
          (Reachable.started node refl)))
