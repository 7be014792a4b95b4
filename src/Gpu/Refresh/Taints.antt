-- ===== src/Gpu/Refresh/Taints.antt =====
-- A device whose driver changes while a claim holds it: `RefreshDeviceOnDriverEvent` and `GetResources` of
-- cmd/kubelet-gpu-plugin/node_state.go.
use intel_resource_drivers_f.Base.{
  ◌≡◌, ◌≢◌, refl, ◌∙◌, inl, inr, Bool, true, false, ◌&&◌, String, [], ◌∷◌, map, Option, none, some,
  Dict, lookup, insert, any, arith, any_of_lookup, lookup-insert_self, eq_iff, eq_refl, str_eq,
  Bool-cases,
}
use intel_resource_drivers_f.Gpu.Types.{
  Health, DeviceInfo, DevicesInfo, health_from, overall, unexpected_driver, device_absent,
}
use intel_resource_drivers_f.Gpu.Probe.{Probe}
use intel_resource_drivers_f.Gpu.Discovery.{discover_pci_device}
use intel_resource_drivers_f.Gpu.Node.{NodeState, Env, is_device_used_exclusively_already}
use intel_resource_drivers_f.Gpu.Resources.{Effect, Taint, Published, published, get_resources}
use intel_resource_drivers_f.Gpu.Refresh.{
  allocatable_by_pci_address, mark, back_again, with_driver_of, refresh_known,
  refresh_device_on_driver_event,
}

health_from-insert :
    (unknown_only : Bool) (kind : String) (status : Dict Health)
    → health_from unknown_only (insert kind Health.unhealthy status) ≡ Health.unhealthy
unfolding health_from insert
health_from-insert unknown_only kind [] = refl
health_from-insert unknown_only kind ((k, h) ∷ status) = elim (Bool-cases (str_eq k kind)) [
  | inl t ↦ rw t refl
  | inr t ↦ rw t (go h (λ b. health_from-insert b kind status))
]
  where
    go :
        (x : Health)
        → ((b : Bool) → health_from b (insert kind Health.unhealthy status) ≡ Health.unhealthy)
        → health_from unknown_only ((k, x) ∷ insert kind Health.unhealthy status) ≡ Health.unhealthy
    go Health.unhealthy later = refl
    go Health.healthy later = later false
    go Health.unknown later = later unknown_only

any-map :
    (f : String × DeviceInfo → Published) (test : Published → Bool) (xs : DevicesInfo)
    → any test (map f xs) ≡ any (λ x. test (f x)) xs
any-map f test [] = refl
any-map f test (x ∷ xs) = ground (arith, any-map f test xs)

abbrev pub evicts : Taint → Bool
evicts t = elim t.effect [ Effect.no_execute ↦ true | Effect.no_schedule ↦ false ]

-- Is the device published with a taint that evicts its Pods?
abbrev pub evicted : String → Published → Bool
evicted name p = str_eq p.name name && any evicts p.taints

published-evicted :
    (manage_binding : Bool) (name : String) (g : DeviceInfo)
    → overall g.health_status ≡ Health.unhealthy
    → evicted name (published manage_binding (name, g)) ≡ true
unfolding published
published-evicted manage_binding name g h = rw (h, eq_refl name) refl

resources-evicted :
    {W : Type 0} (s : NodeState W) (name : String) (g : DeviceInfo)
    → lookup name s.allocatable ≡ some g
    → overall g.health_status ≡ Health.unhealthy
    → any (evicted name) (get_resources s) ≡ true
unfolding get_resources
resources-evicted s name g e h =
    any-map (published s.manage_binding) (evicted name) s.allocatable
    ∙ any_of_lookup (λ x. evicted name (published s.manage_binding x)) name g s.allocatable e
        (published-evicted s.manage_binding name g h)

back_again-driver : (g : DeviceInfo) → (back_again g).1.current_driver ≡ g.current_driver
unfolding back_again mark
back_again-driver g = go (lookup device_absent g.health_status)
  where
    go :
        (o : Option Health)
        → (elim o as (λ _. Bool × DeviceInfo) [
          | some Health.unhealthy ↦ (true, mark device_absent Health.healthy g)
          | _ ↦ (false, g)
        ]).1.current_driver
          ≡ g.current_driver
    go none = refl
    go (some Health.unhealthy) = refl
    go (some Health.healthy) = refl
    go (some Health.unknown) = refl

-- The device was held, and its driver changed as the event says.
refresh_known_used :
    (expected_driver : String) (cached found : DeviceInfo)
    → found.current_driver ≡ expected_driver
    → cached.current_driver ≢ found.current_driver
    → refresh_known true expected_driver cached found
      ≡ (true, mark unexpected_driver Health.unhealthy (with_driver_of (back_again cached).1 found))
unfolding refresh_known
refresh_known_used expected_driver cached found e n = ground (
  arith,
  e,
  n,
  back_again-driver cached,
  eq_iff found.current_driver expected_driver,
  eq_iff (back_again cached).1.current_driver found.current_driver,
)

module _ {W : Type 0} (env : Env W) (probe : Probe W) where
  -- When a udev event says that a known device has another driver, which the device is found with,
  -- while a claim holds the device without admin access, `RefreshDeviceOnDriverEvent` asks for a
  -- publication, and the ResourceSlice of the state that it leaves has the device with a taint that
  -- evicts its Pods.
  pub refresh-evicted :
      (pci_address expected_driver name : String) (cached found : DeviceInfo) (s : NodeState W)
      → allocatable_by_pci_address pci_address s.allocatable ≡ some (name, cached)
      → discover_pci_device env.os probe pci_address s.world ≡ some found
      → found.current_driver ≡ expected_driver
      → cached.current_driver ≢ found.current_driver
      → is_device_used_exclusively_already cached.uid s.node_name "" s.prepared ≡ true
      → ((refresh_device_on_driver_event env probe pci_address expected_driver s).0 ≡ true)
        × (any (evicted name) (
              get_resources
                (refresh_device_on_driver_event env probe pci_address expected_driver s).2)
            ≡ true)
  unfolding refresh_device_on_driver_event mark with_driver_of overall
  refresh-evicted pci_address expected_driver name cached found s known seen e n used =
      let g =
        mark unexpected_driver Health.unhealthy (with_driver_of (back_again cached).1 found) in
      let s' : NodeState W = record s { allocatable = insert name g s.allocatable } in
      let changed = refresh_known_used expected_driver cached found e n in
      rw (known, seen, used, changed, refresh_device_on_driver_event)
        (
          refl,
          resources-evicted s' name g (lookup-insert_self name g s.allocatable)
              (health_from-insert true unexpected_driver (back_again cached).1.health_status),
        )
