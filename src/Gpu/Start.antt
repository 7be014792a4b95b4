-- ===== src/Gpu/Start.antt =====
-- The start of the GPU driver: `newDriver` and `Shutdown` of cmd/kubelet-gpu-plugin/driver.go, and the health
-- check server of healthcheck.go there.
use intel_resource_drivers_f.Base.{
  ℕ, ℤ, pos, negsuc, Bool, false, ◌||◌, not, String, [], none, some, Result, ok, err, if◌then◌else◌,
  str_eq,
}
use intel_resource_drivers_f.Gpu.Probe.{Probe}
use intel_resource_drivers_f.Gpu.Discovery.{discover_devices}
use intel_resource_drivers_f.Gpu.Node.{NodeState, Env}
use intel_resource_drivers_f.Gpu.Resources.{Helper, new_node_state, publish_resource_slice}
use intel_resource_drivers_f.Gpu.Streams.{Streams}
use intel_resource_drivers_f.Gpu.Listen.{Driver}

-- `GPUFlags`, but for the path of the socket.
pub record GpuFlags : Type 0 where
  pub healthcare : Bool
  pub healthcare_optional : Bool
  pub ignore_health_warning : Bool
  pub healthcheck_port : ℤ
  pub manage_binding : Bool

-- The calls to libraries, with whether they succeed.
pub record Surroundings (W : Type 0) : Type 0 where
  pub configure : W → Bool × W
  pub start : W → Bool × W
  pub stop : W → W
  pub listen : ℕ → W → Bool × W
  pub close_listener : W → W
  pub connect_registration : W → Bool × W
  pub close_registration : W → W
  pub connect_dra : W → Bool × W
  pub graceful_stop : W → W

-- The answers of `Check`.
pub data Serving : Type 0 where
  service_unknown not_serving serving : Serving

-- `Check`, with whether the registration server and the DRA server answer.
unfoldable pub check : String → Bool → Bool → Serving
check service registered prepared =
    if not (str_eq service "" || str_eq service "liveness")
    then Serving.service_unknown
    else if not registered
    then Serving.not_serving
    else if not prepared
    then Serving.not_serving
    else Serving.serving

pub data Healthcheck : Type 0 where
  disabled failed serving : Healthcheck

pub data Error : Type 0 where
  no_node_state start_failed publish_failed : Error

-- A driver that has not been told of any stream.
abbrev pub no_streams : Streams
no_streams = record {
  health_stream_id = 0;
  health_streams = [];
  channels = λ _. record { buffer = []; closed = false };
}

module _ {W : Type 0} (around : Surroundings W) where
  -- What was opened before a failure is closed again.
  connect : W → Healthcheck × W
  connect w =
      let (registration, w1) = around.connect_registration w in
      let (dra, w2) = around.connect_dra w1 in
      if not registration
      then (Healthcheck.failed, around.close_listener w1)
      else if not dra
      then (Healthcheck.failed, around.close_registration (around.close_listener w2))
      else (Healthcheck.serving, w2)

  -- `startHealthcheck`
  unfoldable pub start_healthcheck : ℤ → W → Healthcheck × W
  unfolding connect
  start_healthcheck (negsuc n) w = (Healthcheck.disabled, w)
  start_healthcheck (pos port) w =
      let (listening, w') = around.listen port w in
      if listening then connect w' else (Healthcheck.failed, w')

  -- `healthcheck.stop`
  unfoldable pub stop_healthcheck : Healthcheck → W → W
  stop_healthcheck Healthcheck.serving w = around.graceful_stop w
  stop_healthcheck Healthcheck.disabled w = w
  stop_healthcheck Healthcheck.failed w = w

  unfoldable pub shutdown : Healthcheck → W → W
  unfolding stop_healthcheck
  shutdown hc w = around.stop (stop_healthcheck hc w)

  module _ (env : Env W) (probe : Probe W) (helper : Helper W) where
    -- `newDriver` from its plugin on: the slice is published, then the health check starts, whose failure
    -- is only logged.
    publish_first : ℤ → NodeState W → Result Error (Healthcheck × Driver W) × W
    unfolding publish_resource_slice start_healthcheck
    publish_first port s =
        let (published, s') = publish_resource_slice helper s in
        let (hc, w') = start_healthcheck port s'.world in
        if not published
        then (err Error.publish_failed, s'.world)
        else (ok (hc, record { state = record s' { world = w' }; streams = no_streams }), w')

    start_plugin : ℤ → NodeState W → Result Error (Healthcheck × Driver W) × W
    unfolding publish_first
    start_plugin port s =
        let (started, w') = around.start s.world in
        if started
        then publish_first port (record s { world = w' })
        else (err Error.start_failed, w')

    -- The goroutines of the listener and of the udev events are started after it, with `healthcare`.
    unfoldable pub new_driver : GpuFlags → String → W → Result Error (Healthcheck × Driver W) × W
    unfolding start_plugin new_node_state
    new_driver flags node_name w =
        let detected = discover_devices env.os probe "machine" w in
        let (state, w') =
          new_node_state env around.configure detected node_name flags.manage_binding w in
        elim state [
          | none ↦ (err Error.no_node_state, w')
          | some s ↦ start_plugin flags.healthcheck_port s
        ]
