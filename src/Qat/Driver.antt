-- ===== src/Qat/Driver.antt =====
-- The start of the QAT driver: `newDriver`, `PublishResourceSlice` and `Shutdown` of
-- cmd/kubelet-qat-plugin/driver.go, with `newNodeState` and `GetResources` of node_state.go and the reading of
-- the defaults in config.go.
use intel_resource_drivers_f.Base.{
  Bool, not, String, List, [], Option, none, some, Dict, lookup, Result, ok, err, if◌then◌else◌,
}
use intel_resource_drivers_f.Helpers.{get_or_create_prepared_claims}
use intel_resource_drivers_f.Qat.Types.{VfDevices, PfDevice}
use intel_resource_drivers_f.Qat.Cdi.{Registry, add_detected_devices_to_cdi_registry}
use intel_resource_drivers_f.Qat.Plugin.{
  NodeState, Env, device_resources, resource_devices, start_pfs,
}

-- The name and the services of each published VF.
abbrev pub Published : Type 0
Published = List (String × String)

-- The calls to libraries, with whether they succeed, and the file of defaults, if it can be read.
pub record Surroundings (W : Type 0) : Type 0 where
  pub configure : W → Bool × W
  pub start : W → Bool × W
  pub stop : W → W
  pub publish_resources : Published → W → Bool × W
  pub defaults : Option (Dict (Dict String))

-- `nil_pointer` is where a VF points to no PF.
pub data Error : Type 0 where
  no_pfs no_registry no_specs no_claims start_failed publish_failed nil_pointer : Error

-- The devices of the one slice, in the one pool, that of the node.
unfoldable pub get_resources : {W : Type 0} → NodeState W → Option Published
get_resources s = device_resources s.pfs s.allocatable

module _ {W : Type 0} (around : Surroundings W) where
  unfoldable pub publish_resource_slice : NodeState W → Result Error (NodeState W) × W
  unfolding get_resources
  publish_resource_slice s = elim (get_resources s) [
    | none ↦ (err Error.nil_pointer, s.world)
    | some devices ↦
        let (published, w') = around.publish_resources devices s.world in
        (if published then ok (record s { world = w' }) else err Error.publish_failed, w')
  ]

  -- `readConfigFile`, of the host's part.
  unfoldable pub read_config_file : String → Option (Dict String)
  read_config_file hostname = elim around.defaults [
    | none ↦ none
    | some config ↦ lookup hostname config
  ]

  unfoldable pub shutdown : NodeState W → NodeState W
  shutdown s = record s { world = around.stop s.world }

  -- `newDriver` from its plugin on.
  start_plugin : NodeState W → Result Error (NodeState W) × W
  unfolding publish_resource_slice
  start_plugin s =
      let (started, w') = around.start s.world in
      if started
      then publish_resource_slice (record s { world = w' })
      else (err Error.start_failed, w')

  module _ (env : Env W) (cdi : Registry W) where
    -- `newNodeState`
    unfoldable pub new_node_state :
        List PfDevice → VfDevices → String → W → Result Error (NodeState W) × W
    new_node_state pfs detected_devices node_name w =
        let (configured, w1) = around.configure w in
        let (added, w2) = add_detected_devices_to_cdi_registry cdi detected_devices w1 in
        let (claims, w3) =
          get_or_create_prepared_claims env.codec env.files env.prepared_claims_file_path w2 in
        if not configured
        then (err Error.no_registry, w1)
        else if not added
        then (err Error.no_specs, w2)
        else (elim claims [
          | err _ ↦ (err Error.no_claims, w3)
          | ok prepared ↦ (
            ok (record {
              pfs = pfs;
              allocatable = detected_devices;
              prepared = prepared;
              node_name = node_name;
              world = w3;
            }),
            w3,
          )
        ])

    with_state : Result Error (NodeState W) × W → Result Error (NodeState W) × W
    unfolding start_plugin
    with_state (err e, w) = (err e, w)
    with_state (ok s, w) = start_plugin s

    unfoldable pub new_driver : String → W → Result Error (NodeState W) × W
    unfolding read_config_file new_node_state with_state
    new_driver node_name w =
        let (found, w') = start_pfs env (read_config_file node_name) w in
        elim found [
          | none ↦ (err Error.no_pfs, w')
          | some pfs ↦ with_state (new_node_state pfs (resource_devices pfs []) node_name w')
        ]
