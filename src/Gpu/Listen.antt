-- ===== src/Gpu/Listen.antt =====
-- The listener for the messages of xpumd: `waitForXPUMDStream`, `xpumdListen` and
-- `ConsumeXPUMDDeviceDetails` of cmd/kubelet-gpu-plugin/xpumd.go.
pub mod Attempts
pub mod Failures
use intel_resource_drivers_f.Base.{
  ℕ, suc, Bool, true, false, ◌||◌, not, String, List, [], ◌∷◌, Option, none, some, ltb,
  if◌then◌else◌,
}
use intel_resource_drivers_f.Gpu.Xpumd.{DeviceHealth, consume_device_details}
use intel_resource_drivers_f.Gpu.Node.{NodeState}
use intel_resource_drivers_f.Gpu.Resources.{Helper, publish_resource_slice}
use intel_resource_drivers_f.Gpu.Streams.{Streams, build_health_response, broadcast_health_update}

abbrev pub connect_attempts_max : ℕ
connect_attempts_max = 30

abbrev pub max_errors : ℕ
max_errors = 5

-- An answer to `WatchDeviceHealth`, and whether the listener is to stop by then.
pub record Attempt : Type 0 where
  pub connected : Bool
  pub stop : Bool

-- `waitForXPUMDStream` gives up after the last attempt; `waiting` is when no answer is there yet.
pub data Wait : Type 0 where
  answered gave_up waiting : Wait

unfoldable pub wait_for_stream : Bool → ℕ → List Attempt → Wait
wait_for_stream infinite attempt [] =
    if infinite || ltb attempt connect_attempts_max then Wait.waiting else Wait.gave_up
wait_for_stream infinite attempt (a ∷ later_ones) =
    let later = wait_for_stream infinite (suc attempt) later_ones in
    if infinite || ltb attempt connect_attempts_max
    then if a.connected || a.stop then Wait.answered else later
    else Wait.gave_up

-- What the stream gives: a message, its end with the attempts to connect again, or another error.
pub data Received : Type 0 where
  message : List DeviceHealth → Received
  ended : List Attempt → Received
  failed : Received

-- The driver, as far as the listener changes it.
pub record Driver (W : Type 0) : Type 0 where
  pub state : NodeState W
  pub streams : Streams

-- How far the listener is: it waits for the stream, stopped, or panicked.
pub data Status : Type 0 where
  running stopped panicked : Status

module _ {W : Type 0} (helper : Helper W) (warning critical : ℕ) (ignore_warning : Bool) where
  -- `ConsumeXPUMDDeviceDetails`; the health is told to all streams, `none` where that panics.
  unfoldable pub consume : List DeviceHealth → Driver W → Option (Driver W)
  unfolding consume_device_details publish_resource_slice build_health_response
      broadcast_health_update
  consume ds d =
      let (publish, devices) =
        consume_device_details warning critical ignore_warning ds d.state.allocatable in
      let s = record (d.state) { allocatable = devices } in
      if not publish
      then some (record d { state = s })
      else let s' = (publish_resource_slice helper s).1 in
        elim (broadcast_health_update (build_health_response s') d.streams) [
          | none ↦ none
          | some streams ↦ some (record { state = s'; streams = streams })
        ]

  -- The loop of `xpumdListen`: whether it is to stop, and what it receives, in each round.
  unfoldable pub listen : Bool → List (Bool × Received) → ℕ → Driver W → Status × Driver W
  unfolding consume wait_for_stream
  listen infinite [] errors d = (Status.running, d)
  listen infinite ((true, r) ∷ rounds) errors d = (Status.stopped, d)
  listen infinite ((false, Received.message ds) ∷ rounds) errors d = elim (consume ds d) [
    | none ↦ (Status.panicked, d)
    | some d' ↦ listen infinite rounds errors d'
  ]
  listen infinite ((false, Received.ended attempts) ∷ rounds) errors d =
      let later = listen infinite rounds errors d in
      elim (wait_for_stream infinite 0 attempts) [
        | Wait.answered ↦ later
        | Wait.gave_up ↦ (Status.panicked, d)
        | Wait.waiting ↦ (Status.running, d)
      ]
  listen infinite ((false, Received.failed) ∷ rounds) errors d =
      let later = listen infinite rounds (suc errors) d in
      if infinite || ltb errors max_errors then later else (Status.panicked, d)

  -- `xpumdListen` from its client on.
  unfoldable pub xpumd_listen :
      Bool → List Attempt → List (Bool × Received) → Driver W → Status × Driver W
  unfolding listen wait_for_stream
  xpumd_listen infinite attempts rounds d = elim (wait_for_stream infinite 0 attempts) [
    | Wait.answered ↦ listen infinite rounds 0 d
    | Wait.gave_up ↦ (Status.panicked, d)
    | Wait.waiting ↦ (Status.running, d)
  ]
