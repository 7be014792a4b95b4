-- ===== src/Gpu/Streams.antt =====
-- The health of devices in the status of Pods: cmd/kubelet-gpu-plugin/resourceHealthPodStatus.go. Each call
-- of `NodeWatchResources` makes one channel and has a new stream ID, which names that channel here. What
-- panics in Go is `none`.
pub mod Sound
use intel_resource_drivers_f.Base.{
  ℕ, suc, Bool, true, false, not, String, List, [], ◌∷◌, ◌++◌, map, keep, any, Option, none, some,
  length, ltb, ◌==◌, if◌then◌else◌,
}
use intel_resource_drivers_f.Gpu.Types.{Health, DeviceInfo, DevicesInfo, overall}
use intel_resource_drivers_f.Gpu.Node.{NodeState}

-- The enum of the gRPC service.
pub data HealthStatus : Type 0 where
  healthy unhealthy unknown : HealthStatus

-- `DeviceHealth`, but for its time.
pub record DeviceHealth : Type 0 where
  pub pool_name : String
  pub device_name : String
  pub health : HealthStatus

abbrev pub Response : Type 0
Response = List DeviceHealth

unfoldable pub health_status_of : Health → HealthStatus
health_status_of Health.healthy = HealthStatus.healthy
health_status_of Health.unhealthy = HealthStatus.unhealthy
health_status_of Health.unknown = HealthStatus.unknown

unfoldable pub device_info_to_device_health : String → DeviceInfo → DeviceHealth
unfolding health_status_of
device_info_to_device_health node_name g = record {
  pool_name = node_name;
  device_name = g.uid;
  health = health_status_of (overall g.health_status);
}

unfoldable pub build_health_response : {W : Type 0} → NodeState W → Response
unfolding device_info_to_device_health
build_health_response s = map (λ (_, g). device_info_to_device_health s.node_name g) s.allocatable

-- A channel of Go, with what is in its buffer.
pub record Channel : Type 0 where
  pub buffer : List Response
  pub closed : Bool

abbrev pub capacity : ℕ
capacity = 10

-- The streams of the driver; `health_streams` has the keys of the map, and the channels outlive it.
pub record Streams : Type 0 where
  pub health_stream_id : ℕ
  pub health_streams : List ℕ
  pub channels : ℕ → Channel

abbrev pub set_channel : ℕ → Channel → (ℕ → Channel) → ℕ → Channel
set_channel id ch channels = λ j. if j == id then ch else channels j

abbrev pub remove : ℕ → List ℕ → List ℕ
remove id = keep (λ j. not (j == id))

-- The new stream has the ID that the state has then.
unfoldable pub register_health_stream : Streams → Streams
register_health_stream s =
    let id = suc s.health_stream_id in
    record {
      health_stream_id = id;
      health_streams = id ∷ remove id s.health_streams;
      channels = set_channel id (record { buffer = []; closed = false }) s.channels;
    }

-- To close a closed channel panics.
unfoldable pub unregister_health_stream : ℕ → Streams → Option Streams
unregister_health_stream id s =
    if not (any (λ j. j == id) s.health_streams)
    then some s
    else if (s.channels id).closed
    then none
    else some (record s {
      health_streams = remove id s.health_streams;
      channels = set_channel id (record (s.channels id) { closed = true }) s.channels;
    })

-- A full buffer skips the update; to send to a closed channel panics.
unfoldable pub send : Response → Channel → Option Channel
send response ch =
    if ch.closed
    then none
    else if ltb (length ch.buffer) capacity
    then some (record ch { buffer = ch.buffer ++ (response ∷ []) })
    else some ch

unfoldable pub broadcast : Response → List ℕ → (ℕ → Channel) → Option (ℕ → Channel)
unfolding send
broadcast response [] channels = some channels
broadcast response (id ∷ ids) channels = elim (send response (channels id)) [
  | none ↦ none
  | some ch ↦ broadcast response ids (set_channel id ch channels)
]

unfoldable pub broadcast_health_update : Response → Streams → Option Streams
unfolding broadcast
broadcast_health_update response s = elim (broadcast response s.health_streams s.channels) [
  | none ↦ none
  | some channels ↦ some (record s { channels = channels })
]

-- The start of `NodeWatchResources`; the Boolean is whether the client took the first response.
unfoldable pub watch : Bool → Streams → Option Streams
unfolding register_health_stream unregister_health_stream
watch sent s =
    let s' = register_health_stream s in
    if sent then some s' else unregister_health_stream s'.health_stream_id s'

-- A round of its loop at the channel: an update is passed on, which may fail; a closed channel ends the
-- stream; an empty one waits. Both ends run the deferred `unregisterHealthStream`.
unfoldable pub receive : ℕ → Bool → Streams → Option Streams
unfolding unregister_health_stream
receive id sent s =
    let ch = s.channels id in
    elim ch.buffer [
      | response ∷ rest ↦
          let s' = record s {
            channels = set_channel id (record ch { buffer = rest }) s.channels;
          } in
          if sent then some s' else unregister_health_stream id s'
      | [] ↦
          if ch.closed
          then unregister_health_stream id
              (record s { health_streams = remove id s.health_streams })
          else some s
    ]
