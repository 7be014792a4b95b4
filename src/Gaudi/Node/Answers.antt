-- ===== src/Gaudi/Node/Answers.antt =====
-- What `prepareAllocatedDevices` of cmd/kubelet-gaudi-plugin collects, against a description without a
-- loop.
use intel_resource_drivers_f.Base.{
  ◌≡◌, refl, inl, inr, List, [], ◌∷◌, map, Option, none, some, lookup, keep, Result, ok, err,
  Bool-cases, Option-cases, decimal,
}
use Prim.Native.String.{◌++◌ as str_append}
use intel_resource_drivers_f.Kubelet.{AllocationResult}
use intel_resource_drivers_f.Gaudi.Types.{DeviceInfo, DevicesInfo, cdi_name}
use intel_resource_drivers_f.Gaudi.Node.{
  NodeState, Error, Collected, collect, is_ours, collect_devices,
}

abbrev pub Pair : Type 0
Pair = AllocationResult × DeviceInfo

unfoldable pub pair_with :
    AllocationResult → Option DeviceInfo → Option (List Pair) → Option (List Pair)
pair_with a (some g) (some ps) = some ((a, g) ∷ ps)
pair_with a _ _ = none

-- Each allocated device with what is known of it, if all are known.
unfoldable pub look_up_all : DevicesInfo → List AllocationResult → Option (List Pair)
unfolding pair_with
look_up_all allocatable [] = some []
look_up_all allocatable (a ∷ rs) =
    pair_with a (lookup a.device allocatable) (look_up_all allocatable rs)

-- The collected lists, one entry for each device.
abbrev pub summary : List Pair → Collected
summary ps = record {
  devices =
      map
        (λ (a, g). record {
          requests = a.request ∷ [];
          pool_name = a.pool;
          device_name = a.device;
          cdi_device_ids = cdi_name g ∷ [];
          bus_id = none;
        })
        ps;
  visible_device_indices = map (λ (a, g). decimal g.device_idx) ps;
  visible_module_indices = map (λ (a, g). decimal g.module_idx) ps;
  hl_visible_device_paths = map (λ (a, g). str_append "/dev/accel/accel" (decimal g.device_idx)) ps;
}

abbrev pub described : Option (List Pair) → Result Error Collected
described none = err Error.not_allocatable
described (some ps) = ok (summary ps)

module _ {W : Type 0} where
  -- The loop of `prepareAllocatedDevices` over the results of an allocation is a map: of the results
  -- of this driver, it is an error if one is of a device that is not known, and else each of the
  -- four lists that it collects has one entry for each result, in their order.
  pub collect_devices_lem :
      (rs : List AllocationResult) (s : NodeState W)
      → collect_devices rs s ≡ described (look_up_all s.allocatable (keep (is_ours s) rs))
  unfolding collect_devices look_up_all pair_with collect
  collect_devices_lem [] s = refl
  collect_devices_lem (a ∷ rs) s = elim (Bool-cases (is_ours s a)) [
    | inr t ↦ rw t (collect_devices_lem rs s)
    | inl t ↦ elim (Option-cases (lookup a.device s.allocatable)) [
      | inl e ↦ rw (t, e) refl
      | inr (g, e) ↦ elim (Option-cases (look_up_all s.allocatable (keep (is_ours s) rs))) [
        | inl f ↦ rw (t, e, collect_devices_lem rs s, f) refl
        | inr (ps, f) ↦ rw (t, e, collect_devices_lem rs s, f) refl
      ]
    ]
  ]
