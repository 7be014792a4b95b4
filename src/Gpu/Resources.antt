-- ===== src/Gpu/Resources.antt =====
-- `GetResources` of cmd/kubelet-gpu-plugin/node_state.go: the devices that the driver publishes, with their
-- taints, and `newNodeState`.
use Prim.Native.Char.{code}
use Prim.Native.Nat.{Ordering}
use Prim.Native.String.{◌++◌ as str_append, compare}
use intel_resource_drivers_f.Base.{
  ℕ, Bool, ◌&&◌, not, String, List, [], ◌∷◌, ◌++◌, map, Option, none, some, Dict, ok, err,
  if◌then◌else◌, str_eq, ◌==◌, ltb, split, join, replace_all,
}
use intel_resource_drivers_f.Gpu.Types.{
  Health, health_eq, DeviceInfo, DevicesInfo, overall, unbound_unmanaged,
}
use intel_resource_drivers_f.Gpu.Cdi.{add_detected_devices}
use intel_resource_drivers_f.Gpu.Claims.{get_or_create_prepared_claims}
use intel_resource_drivers_f.Gpu.Node.{NodeState, Env}

pub data Effect : Type 0 where
  no_schedule no_execute : Effect

-- `DeviceTaint`
pub record Taint : Type 0 where
  pub key : String
  pub effect : Effect

-- A device of the slice, with its attributes and capacities. The address is published under two names.
pub record Published : Type 0 where
  pub name : String
  pub model : String
  pub family : String
  pub driver : String
  pub sriov : Bool
  pub device_type : String
  pub pci_id : String
  pub pci_address : String
  pub health : Health
  pub pcie_root : String
  pub pci_root : Option String
  pub memory_mib : ℕ
  pub millicores : ℕ
  pub taints : List Taint

-- `sort.Strings`
into_sorted : String → List String → List String
into_sorted s [] = s ∷ []
into_sorted s (t ∷ ts) =
    let rest = into_sorted s ts in elim (compare t s) [ Ordering.gt ↦ s ∷ t ∷ ts | _ ↦ t ∷ rest ]

unfoldable pub sort_strings : List String → List String
unfolding into_sorted
sort_strings [] = []
sort_strings (s ∷ ss) = into_sorted s (sort_strings ss)

-- `strings.ReplaceAll` of a character by nothing.
drop_all : ℕ → String → String
drop_all old String.[] = String.[]
drop_all old (String.◌∷◌ c s) =
    let rest = drop_all old s in if code c == old then rest else String.◌∷◌ c rest

unfoldable pub unhealthy_types : Dict Health → List String
unhealthy_types [] = []
unhealthy_types ((kind, h) ∷ status) =
    let rest = unhealthy_types status in if health_eq h Health.unhealthy then kind ∷ rest else rest

unfoldable pub health_key : Dict Health → String
unfolding drop_all
health_key status = replace_all b',' "_" (
    drop_all b']' (
      drop_all b'['
        (str_append "HealthIssues-" (join "_" (sort_strings (unhealthy_types status))))))

health_taints : DeviceInfo → List Taint
unfolding health_key
health_taints g =
    if health_eq (overall g.health_status) Health.unhealthy
    then record { key = health_key g.health_status; effect = Effect.no_execute } ∷ []
    else []

binding_taints : Bool → DeviceInfo → List Taint
binding_taints manage_binding g =
    if str_eq g.current_driver "" && not manage_binding
    then record { key = unbound_unmanaged; effect = Effect.no_schedule } ∷ []
    else []

-- `pciRoot` of a device whose root complex has two parts.
pci_bus : String → Option String
pci_bus root =
    if str_eq root "" then none else (elim (split b':' root) [ _ ∷ bus ∷ [] ↦ some bus | _ ↦ none ])

unfoldable pub published : Bool → String × DeviceInfo → Published
unfolding pci_bus health_taints binding_taints
published manage_binding (name, g) = record {
  name = name;
  model = g.model_name;
  family = g.family_name;
  driver = g.current_driver;
  sriov = ltb 0 g.max_vfs;
  device_type = g.device_type;
  pci_id = g.model;
  pci_address = g.pci_address;
  health = overall g.health_status;
  pcie_root = g.pci_root;
  pci_root = pci_bus g.pci_root;
  memory_mib = g.memory_mib;
  millicores = 1000;
  taints = health_taints g ++ binding_taints manage_binding g;
}

module _ {W : Type 0} where
  -- The devices of the one slice, in the one pool, that of the node.
  unfoldable pub get_resources : NodeState W → List Published
  unfolding published
  get_resources s = map (published s.manage_binding) s.allocatable

module _ {W : Type 0} (env : Env W) where
  -- `newNodeState`; `configure` is the refresh of the CDI registry.
  unfoldable pub new_node_state :
      (W → Bool × W) → DevicesInfo → String → Bool → W → Option (NodeState W) × W
  new_node_state configure detected_devices node_name manage_binding w =
      let (configured, w1) = configure w in
      let (added, w2) = add_detected_devices env.os env.cdi detected_devices w1 in
      let (claims, w3) =
        get_or_create_prepared_claims env.codec env.disk env.prepared_claims_file_path w2 in
      if not configured then (none, w1) else if not added then (none, w2) else (
        (elim claims [
          | err _ ↦ none
          | ok prepared ↦ some (record {
            allocatable = detected_devices;
            prepared = prepared;
            node_name = node_name;
            manage_binding = manage_binding;
            world = w3;
          })
        ]),
        w3,
      )

-- The helper of the kubelet: the sending of a slice, which may fail.
pub record Helper (W : Type 0) : Type 0 where
  pub publish_resources : List Published → W → Bool × W

module _ {W : Type 0} (helper : Helper W) where
  -- `PublishResourceSlice` of driver.go; a failure is only logged by all callers but `newDriver`.
  unfoldable pub publish_resource_slice : NodeState W → Bool × NodeState W
  unfolding get_resources
  publish_resource_slice s =
      let (published, w') = helper.publish_resources (get_resources s) s.world in
      (published, record s { world = w' })
