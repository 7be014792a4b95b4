-- ===== src/Gaudi/Driver.antt =====
-- The start of the Gaudi driver: `getGaudiFlags` and `newDriver` of cmd/kubelet-gaudi-plugin/driver.go, and
-- `IsRHOCP` of pkg/gaudi/cdihelpers.
use intel_resource_drivers_f.Base.{
  Bool, true, false, ◌||◌, not, String, List, Option, none, some, any, Result, ok, err,
  if◌then◌else◌, str_eq, ltb, ℤ, pos, negsuc, Tree,
}
use intel_resource_drivers_f.Gaudi.Discovery.{discover_devices}
use intel_resource_drivers_f.Gaudi.Node.{NodeState, Env, new_node_state, get_resources}
use intel_resource_drivers_f.Gaudi.Health.{Hlml, Cluster, init_hlml}

-- The interval is an `int`.
pub record GaudiFlags : Type 0 where
  pub gaudi_hook_path : String
  pub healthcare : Bool
  pub healthcare_interval : ℤ

pub data Error : Type 0 where
  bad_interval no_node_state start_failed no_hlml publish_failed : Error

abbrev pub default_habana_hook_path : String
default_habana_hook_path = "/usr/bin/habana-container-hook"

abbrev pub ocp_habana_hook_path : String
ocp_habana_hook_path = "/usr/local/habana/bin/habana-container-hook"

is_open_shift : String → Bool
is_open_shift group =
    str_eq group "config.openshift.io"
    || (str_eq group "operator.openshift.io"
        || (str_eq group "security.openshift.io" || str_eq group "project.openshift.io"))

-- `IsRHOCP`, of the API groups that the server names; `none` where it answers with an error.
unfoldable pub is_rhocp : Option (List String) → Bool
unfolding is_open_shift
is_rhocp none = false
is_rhocp (some groups) = any is_open_shift groups

-- The interval is outside of 1 to 3600.
out_of_range : ℤ → Bool
out_of_range (pos n) = ltb n 1 || ltb 3600 n
out_of_range (negsuc n) = true

unfoldable pub get_gaudi_flags : GaudiFlags → Option (List String) → Result Error GaudiFlags
unfolding is_rhocp out_of_range
get_gaudi_flags flags groups =
    if out_of_range flags.healthcare_interval
    then err Error.bad_interval
    else if str_eq flags.gaudi_hook_path ""
    then ok (record flags {
      gaudi_hook_path = if is_rhocp groups then ocp_habana_hook_path else default_habana_hook_path;
    })
    else ok flags

-- What the start reads: the files under /sys, the root complex of a device, the API groups; and the call
-- that registers the plugin with the kubelet.
pub record Surroundings (W : Type 0) : Type 0 where
  pub tree : W → Tree
  pub pcie_root : String → W → Option String
  pub api_groups : W → Option (List String)
  pub start : W → Bool × W

module _ {W H : Type 0} (around : Surroundings W) (env : Env W) (hlml : Hlml W H)
    (cluster : Cluster W) where
  -- The end of `newDriver`: the slice is published, and the monitor is started afterwards.
  publish_first : NodeState W → Result Error (NodeState W) × W
  publish_first s =
      let (published, w') = cluster.publish_resources (get_resources s) s.world in
      (if published then ok (record s { world = w' }) else err Error.publish_failed, w')

  -- `newDriver` from the state of the node on.
  start_driver : Bool → NodeState W → Result Error (NodeState W) × W
  unfolding publish_first
  start_driver healthcare s =
      let (started, w') = around.start s.world in
      let s' = record s { world = w' } in
      let (failed, s'') = init_hlml hlml s' in
      if not started
      then (err Error.start_failed, w')
      else if healthcare
      then (elim failed [ some _ ↦ (err Error.no_hlml, s''.world) | none ↦ publish_first s'' ])
      else publish_first s'

  with_state : Bool → Option (NodeState W) × W → Result Error (NodeState W) × W
  unfolding start_driver
  with_state healthcare (none, w) = (err Error.no_node_state, w)
  with_state healthcare (some s, w) = start_driver healthcare s

  unfoldable pub new_driver : GaudiFlags → String → W → Result Error (NodeState W) × W
  unfolding with_state
  new_driver flags node_name w = elim (get_gaudi_flags flags (around.api_groups w)) [
    | err e ↦ (err e, w)
    | ok set ↦
        let detected =
          discover_devices (around.tree w) (λ address. around.pcie_root address w) "machine" in
        with_state set.healthcare (
          new_node_state (record env { gaudi_hook_path = set.gaudi_hook_path }) detected node_name
            w)
  ]
