-- ===== src/Gpu/Health.antt =====
-- The health of a device: `applyHealthStatus` and `applyDeviceUpdates`
-- in cmd/kubelet-gpu-plugin/xpumd.go.
pub mod Publish
use Prim.Native.String.{◌++◌ as str_append, len}
use intel_resource_drivers_f.Base.{
  ℕ, ◌*◌, ◌/◌, Bool, true, false, ◌&&◌, ◌||◌, not, String, List, [], ◌∷◌, Option, none, some, Dict,
  lookup, insert, has, any, if◌then◌else◌, str_eq, ◌==◌, leb,
}
use intel_resource_drivers_f.Gpu.Types.{
  Health, health_eq, DeviceInfo, DevicesInfo, overall, health_custom_list,
}

-- The overall health says "publish" when it was unknown and the report is anything but healthy.
unknown_publishes : Dict Health → Dict Health → Bool
unknown_publishes old new =
    health_eq (overall old) Health.unknown && not (health_eq (overall new) Health.healthy)

-- A reported category whose value changes, or that is new and unhealthy.
changed : Dict Health → String × Health → Bool
changed old (t, h) = elim (lookup t old) [
  | some o ↦ not (health_eq o h)
  | none ↦ health_eq h Health.unhealthy
]

-- A known category that is unhealthy and no longer reported.
dropped : Dict Health → String × Health → Bool
dropped new (t, h) = not (has t new) && health_eq h Health.unhealthy

-- The driver's own categories are carried over from the old map.
carry_over : List String → Dict Health → Dict Health → Dict Health
carry_over [] old new = new
carry_over (k ∷ ks) old new = elim (lookup k old) [
  | none ↦ carry_over ks old new
  | some h ↦ carry_over ks old (insert k h new)
]

-- `applyHealthStatus`: whether to publish, and the new map of the device.
unfoldable pub apply_health_status : Dict Health → Dict Health → Bool × Dict Health
unfolding unknown_publishes changed dropped carry_over
apply_health_status old new = (
  unknown_publishes old new || any (changed old) new || any (dropped new) old,
  carry_over health_custom_list old new,
)

apply_update : DeviceInfo → DeviceInfo → Bool × DeviceInfo
unfolding apply_health_status
apply_update found new =
    let (publish, status) = apply_health_status found.health_status new.health_status in
    (
      not (found.memory_mib == new.memory_mib) || publish,
      record found { memory_mib = new.memory_mib; health_status = status },
    )

-- `applyDeviceUpdates`: a device that is not known is passed over.
unfoldable pub apply_device_updates : DevicesInfo → DevicesInfo → Bool × DevicesInfo
unfolding apply_update
apply_device_updates [] allocatable = (false, allocatable)
apply_device_updates ((uid, new) ∷ news) allocatable = elim (lookup uid allocatable) [
  | none ↦ apply_device_updates news allocatable
  | some found ↦
      let (publish, found') = apply_update found new in
      let (later, allocatable') = apply_device_updates news (insert uid found' allocatable) in
      (publish || later, allocatable')
]
