-- ===== src/Gpu/Driver/History.antt =====
-- The states that a run of the GPU driver passes through.
use intel_resource_drivers_f.Base.{
  ◌≡◌, refl, subst, sym, inl, inr, Option-cases, Bool, false, String, List, [], ◌∷◌, Option, Dict,
  Result, lookup, arith,
}
use intel_resource_drivers_f.Kubelet.{ResourceClaim, Device}
use intel_resource_drivers_f.Gpu.Types.{DevicesInfo}
use intel_resource_drivers_f.Gpu.Health.{apply_device_updates}
use intel_resource_drivers_f.Gpu.Claims.{ClaimPreparations}
use intel_resource_drivers_f.Gpu.Binding.{Error}
use intel_resource_drivers_f.Gpu.Node.{NodeState, Env}
use intel_resource_drivers_f.Gpu.Node.Exclusive.{
  Exclusive, prepare_resource_claim-Exclusive, unprepare-Exclusive,
}
use intel_resource_drivers_f.Gpu.Probe.{Probe}
use intel_resource_drivers_f.Gpu.Discovery.{discover_pci_device}
use intel_resource_drivers_f.Gpu.Refresh.{
  allocatable_by_pci_address, refresh_device_on_driver_event,
}
use intel_resource_drivers_f.Gpu.Driver.{prepare_resource_claims, unprepare_resource_claims}

-- A state is reached from a start without claims, by calls of the kubelet, by reports of xpumd, by
-- udev events of drivers, and by what other programs do to the system.
pub data Reachable {W : Type 0} (env : Env W) : NodeState W → Type 0 where
  started : (s : NodeState W) → s.prepared ≡ [] → Reachable env s
  prepared :
      (claims : List ResourceClaim) (s : NodeState W)
      → Reachable env s
      → Reachable env (prepare_resource_claims env claims [] false s).2
  unprepared :
      (uids : List String) (s : NodeState W)
      → Reachable env s
      → Reachable env (unprepare_resource_claims env uids [] false s).2
  reported :
      (news : DevicesInfo) (s : NodeState W)
      → Reachable env s
      → Reachable env (record s { allocatable = (apply_device_updates news s.allocatable).1 })
  refreshed :
      (probe : Probe W) (pci_address expected_driver : String) (s : NodeState W)
      → Reachable env s
      → Reachable env (refresh_device_on_driver_event env probe pci_address expected_driver s).2
  disturbed : (w : W) (s : NodeState W) → Reachable env s → Reachable env (record s { world = w })

empty-Exclusive : (m : ClaimPreparations) → m ≡ [] → Exclusive m
unfolding lookup
empty-Exclusive m z c d ds es name pool n e f u = absurd (ground (arith, z, e))

module _ {W : Type 0} (env : Env W) where
  prepare_resource_claims-Exclusive :
      (claims : List ResourceClaim) (response : Dict (Result Error (List Device))) (need : Bool)
      (s : NodeState W)
      → Exclusive s.prepared
      → Exclusive (prepare_resource_claims env claims response need s).2.prepared
  unfolding prepare_resource_claims
  prepare_resource_claims-Exclusive [] response need s x = x
  prepare_resource_claims-Exclusive (claim ∷ claims) response need s x =
      prepare_resource_claims-Exclusive claims _ _ _
        (prepare_resource_claim-Exclusive env claim s x)

  unprepare_resource_claims-Exclusive :
      (uids : List String) (response : Dict (Option Error)) (need : Bool) (s : NodeState W)
      → Exclusive s.prepared
      → Exclusive (unprepare_resource_claims env uids response need s).2.prepared
  unfolding unprepare_resource_claims
  unprepare_resource_claims-Exclusive [] response need s x = x
  unprepare_resource_claims-Exclusive (uid ∷ uids) response need s x =
      unprepare_resource_claims-Exclusive uids _ _ _ (unprepare-Exclusive env uid s x)

  refresh-prepared :
      (probe : Probe W) (pci_address expected_driver : String) (s : NodeState W)
      → (refresh_device_on_driver_event env probe pci_address expected_driver s).2.prepared
        ≡ s.prepared
  unfolding refresh_device_on_driver_event
  refresh-prepared probe pci_address expected_driver s =
      elim (Option-cases (allocatable_by_pci_address pci_address s.allocatable)) [
        | inl e ↦ elim (Option-cases (discover_pci_device env.os probe pci_address s.world)) [
          | inl f ↦ rw (e, f, refresh_device_on_driver_event) refl
          | inr (found, f) ↦ rw (e, f, refresh_device_on_driver_event) refl
        ]
        | inr ((name, cached), e) ↦
            elim (Option-cases (discover_pci_device env.os probe pci_address s.world)) [
              | inl f ↦ rw (e, f, refresh_device_on_driver_event) refl
              | inr (found, f) ↦ rw (e, f, refresh_device_on_driver_event) refl
            ]
      ]

  -- In every state that is reached from a start without prepared claims, by calls that prepare and
  -- unprepare claims, by reports of xpumd, by udev events of drivers and by changes of the system
  -- from outside, no device of a pool is prepared without admin access for two claims.
  pub Reachable-Exclusive : (s : NodeState W) → Reachable env s → Exclusive s.prepared
  Reachable-Exclusive _ (Reachable.started s e) = empty-Exclusive s.prepared e
  Reachable-Exclusive _ (Reachable.prepared claims s r) =
      prepare_resource_claims-Exclusive claims [] false s (Reachable-Exclusive s r)
  Reachable-Exclusive _ (Reachable.unprepared uids s r) =
      unprepare_resource_claims-Exclusive uids [] false s (Reachable-Exclusive s r)
  Reachable-Exclusive _ (Reachable.reported news s r) = Reachable-Exclusive s r
  Reachable-Exclusive _ (Reachable.refreshed probe pci_address expected_driver s r) =
      subst Exclusive (sym (refresh-prepared probe pci_address expected_driver s))
        (Reachable-Exclusive s r)
  Reachable-Exclusive _ (Reachable.disturbed w s r) = Reachable-Exclusive s r
