-- ===== src/Gaudi/Health.antt =====
-- cmd/kubelet-gaudi-plugin/healthcare.go: the health of the Gaudi devices, as the HLML library reports it.
-- HLML and the API server are interfaces. The channel of UIDs has no buffer, and `startHealthMonitor`
-- updates the devices one by one in the order in which they are sent.
pub mod Keeps
pub mod Critical
use Prim.Native.String.{◌++◌ as str_append}
use intel_resource_drivers_f.Base.{
  ℕ, zero, suc, ◌+◌, Bool, true, false, ◌&&◌, ◌||◌, not, String, List, [], ◌∷◌, map, Option, none,
  some, lookup, insert, if◌then◌else◌, str_eq, ◌==◌, length, ltb,
}
use intel_resource_drivers_f.Gaudi.Types.{DeviceInfo, DevicesInfo, driver_name}
use intel_resource_drivers_f.Gaudi.Node.{
  NodeState, Published, get_resources, allocatable_by_pci_address,
}

pub record Event : Type 0 where
  pub etype : ℕ
  pub serial : String

-- github.com/HabanaAI/gohlml, with handles of devices in `H`; `none` and false are errors.
pub record Hlml (W H : Type 0) : Type 0 where
  pub initialize : W → Bool × W
  pub device_count : W → Option ℕ
  pub device_handle_by_index : ℕ → W → Option H
  pub device_handle_by_serial : String → W → Option H
  pub serial_number : H → W → Option String
  pub pci_bus_id : H → W → Option String
  pub register_event_for_device : String → W → Bool × W
  pub wait_for_event : W → Option Event × W
  pub critical_error : ℕ

-- `DeviceTaintRule`, by what the driver fills; its effect is NoExecute.
pub record TaintRule : Type 0 where
  pub name : String
  pub driver : String
  pub pool : String
  pub device : String
  pub key : String
  pub value : String

-- The API server: is there a rule of that name, the creation of one, and the publishing of a slice.
pub record Cluster (W : Type 0) : Type 0 where
  pub has_taint_rule : String → W → Bool
  pub create_taint_rule : TaintRule → W → Bool × W
  pub publish_resources : List Published → W → Bool × W

pub data HlmlError : Type 0 where
  initialize_failed count_failed handle_failed serial_failed pci_bus_id_failed unknown_device :
      HlmlError

set_serial : String → DeviceInfo → DeviceInfo
set_serial serial g = record g { serial = serial }

set_healthy : Bool → DeviceInfo → DeviceInfo
set_healthy healthy g = record g { healthy = healthy }

-- A change of the device that is filed under a UID, through its pointer.
unfoldable pub change : String → (DeviceInfo → DeviceInfo) → DevicesInfo → DevicesInfo
change uid f devices = elim (lookup uid devices) [
  | none ↦ devices
  | some g ↦ insert uid (f g) devices
]

abbrev pub keys : DevicesInfo → List String
keys devices = map (λ e. e.0) devices

uid_of_serial : String → DevicesInfo → Option String
uid_of_serial serial [] = none
uid_of_serial serial ((_, g) ∷ rest) =
    let later = uid_of_serial serial rest in if str_eq g.serial serial then some g.uid else later

module _ {W H : Type 0} (hlml : Hlml W H) where
  -- One round of the loop of `initHLML`.
  init_one : ℕ → NodeState W → Option HlmlError × NodeState W
  unfolding change set_serial
  init_one i s = elim (hlml.device_handle_by_index i s.world) [
    | none ↦ (some HlmlError.handle_failed, s)
    | some handle ↦ elim (hlml.serial_number handle s.world) [
      | none ↦ (some HlmlError.serial_failed, s)
      | some serial ↦ elim (hlml.pci_bus_id handle s.world) [
        | none ↦ (some HlmlError.pci_bus_id_failed, s)
        | some pci_address ↦ elim (allocatable_by_pci_address pci_address s.allocatable) [
          | none ↦ (some HlmlError.unknown_device, s)
          | some uid ↦
              (none, record s { allocatable = change uid (set_serial serial) s.allocatable })
        ]
      ]
    ]
  ]

  -- The loop, from device `i` on, over the devices that are left.
  init_from : ℕ → ℕ → NodeState W → Option HlmlError × NodeState W
  unfolding init_one
  init_from i zero s = (none, s)
  init_from i (suc left) s =
      let (e, s') = init_one i s in
      elim e [ some x ↦ (some x, s') | none ↦ init_from (i + 1) left s' ]

  unfoldable pub init_hlml : NodeState W → Option HlmlError × NodeState W
  unfolding init_from
  init_hlml s =
      let (initialized, w') = hlml.initialize s.world in
      let s' = record s { world = w' } in
      if not initialized
      then (some HlmlError.initialize_failed, s')
      else (elim (hlml.device_count w') [
        | none ↦ (some HlmlError.count_failed, s')
        | some count ↦ init_from 0 count s'
      ])

  -- The registration loop of `watchCriticalHLMLEvents`: the UIDs that it sends, and `allFailed`.
  unfoldable pub register_all : DevicesInfo → W → List String × Bool × W
  register_all [] w = ([], true, w)
  register_all ((_, g) ∷ rest) w =
      let (registered, w1) = hlml.register_event_for_device g.serial w in
      let (uids, all_failed, w2) = register_all rest w1 in
      if registered then (uids, false, w2) else (g.uid ∷ uids, all_failed, w2)

  -- `getUIDsOfDevicesWithHandleError`: the first one only.
  uids_with_handle_error : DevicesInfo → W → List String
  uids_with_handle_error [] w = []
  uids_with_handle_error ((_, g) ∷ rest) w =
      let later = uids_with_handle_error rest w in
      elim (hlml.device_handle_by_serial g.serial w) [ none ↦ g.uid ∷ [] | some _ ↦ later ]

  -- The devices of a critical event: the one with its serial, or all.
  unfoldable pub critical_uids : String → DevicesInfo → W → List String
  unfolding uid_of_serial
  critical_uids event_serial devices w = elim (hlml.device_handle_by_serial event_serial w) [
    | none ↦ keys devices
    | some handle ↦ elim (hlml.serial_number handle w) [
      | none ↦ keys devices
      | some serial ↦
          if str_eq serial ""
          then keys devices
          else (elim (uid_of_serial serial devices) [ none ↦ keys devices | some uid ↦ uid ∷ [] ])
    ]
  ]

  unfoldable pub timed_hlml_event_check : DevicesInfo → W → Bool × List String × W
  unfolding uids_with_handle_error critical_uids
  timed_hlml_event_check devices w =
      let (received, w') = hlml.wait_for_event w in
      elim received [
        | none ↦ let uids = uids_with_handle_error devices w' in (ltb 0 (length uids), uids, w')
        | some e ↦
            if e.etype == 0 && str_eq e.serial ""
            then (false, [], w')
            else if not (e.etype == hlml.critical_error)
            then (false, [], w')
            else (true, critical_uids e.serial devices w', w')
      ]

  module _ (cluster : Cluster W) where
    taint_rule : String → String → TaintRule
    taint_rule node_name uid = record {
      name = str_append driver_name (str_append "-" (str_append node_name (str_append "-" uid)));
      driver = driver_name;
      pool = node_name;
      device = uid;
      key = str_append driver_name "/unhealthy";
      value = "CriticalError";
    }

    unfoldable pub create_taint_rule_maybe : String → String → W → W
    unfolding taint_rule
    create_taint_rule_maybe node_name uid w =
        let rule = taint_rule node_name uid in
        if cluster.has_taint_rule rule.name w then w else (cluster.create_taint_rule rule w).1

    -- `updateHealth`: a publishing that fails is only logged.
    unfoldable pub update_health : Bool → String → NodeState W → NodeState W
    unfolding change set_healthy create_taint_rule_maybe
    update_health healthy uid s = elim (lookup uid s.allocatable) [
      | none ↦ s
      | some _ ↦
          let s' = record s {
            allocatable = change uid (set_healthy healthy) s.allocatable;
            world = create_taint_rule_maybe s.node_name uid s.world;
          } in
          record s' { world = (cluster.publish_resources (get_resources s') s'.world).1 }
    ]

    -- The loop of `startHealthMonitor` over the UIDs that are sent.
    unfoldable pub update_all : List String → NodeState W → NodeState W
    unfolding update_health
    update_all [] s = s
    update_all (uid ∷ uids) s = update_all uids (update_health false uid s)

    -- One tick of `watchCriticalHLMLEvents`, with the updates that it causes.
    unfoldable pub tick : NodeState W → NodeState W
    unfolding timed_hlml_event_check update_all
    tick s =
        let (push, uids, w') = timed_hlml_event_check s.allocatable s.world in
        let s' = record s { world = w' } in if push then update_all uids s' else s'

    ticks : ℕ → NodeState W → NodeState W
    unfolding tick
    ticks zero s = s
    ticks (suc n) s = ticks n (tick s)

    -- `startHealthMonitor`, which is stopped after some number of ticks. When no device could be
    -- registered, the watcher ends.
    unfoldable pub start_health_monitor : ℕ → NodeState W → NodeState W
    unfolding register_all update_all ticks
    start_health_monitor n s =
        let (uids, all_failed, w') = register_all s.allocatable s.world in
        let s' = update_all uids (record s { world = w' }) in if all_failed then s' else ticks n s'
