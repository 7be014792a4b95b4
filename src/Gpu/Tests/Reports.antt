-- ===== src/Gpu/Tests/Reports.antt =====
-- Reports of the health of devices.
use intel_resource_drivers_f.Base.{
  List, leb, ◌≡◌, refl, ◌↔◌, true, false, ◌&&◌, [], ◌∷◌, arith, Dict, lookup, has, any,
  if◌then◌else◌, eq_iff, Distinct,
}
use intel_resource_drivers_f.Gpu.Types.{Health, overall, device_absent}
use intel_resource_drivers_f.Gpu.Health.{apply_health_status}
use intel_resource_drivers_f.Gpu.Health.Publish.{
  is_custom, lookup-apply_health_status, silent_unhealthy, first_report_silent,
}
use intel_resource_drivers_f.Gpu.Xpumd.{Reading, health_values}
use intel_resource_drivers_f.Gpu.Xpumd.Severity.{Fresh, health_values-unhealthy}

abbrev hot : Dict Health
hot = ("MemoryTemperature", Health.unhealthy) ∷ (device_absent, Health.healthy) ∷ []

abbrev still_hot : Dict Health
still_hot = ("MemoryTemperature", Health.unhealthy) ∷ []

lookup-apply_health_status_example : lookup device_absent (apply_health_status hot still_hot).1 ≡ (
    if is_custom device_absent && has device_absent hot
    then lookup device_absent hot
    else lookup device_absent still_hot)
lookup-apply_health_status_example = lookup-apply_health_status hot still_hot device_absent

hot-Distinct : Distinct hot
unfolding lookup
hot-Distinct = (refl, (refl, tt))

still_hot-Distinct : Distinct still_hot
unfolding lookup
still_hot-Distinct = (refl, tt)

unpublished : (apply_health_status hot still_hot).0 ≡ false
unfolding apply_health_status overall lookup any
unpublished = refl

silent_unhealthy_example :
    (overall (apply_health_status hot still_hot).1 ≡ Health.unhealthy)
    ↔ (overall hot ≡ Health.unhealthy)
silent_unhealthy_example =
    silent_unhealthy hot still_hot hot-Distinct still_hot-Distinct unpublished

abbrev well : Dict Health
well = ("MemoryTemperature", Health.healthy) ∷ []

is_well : overall well ≡ Health.healthy
unfolding overall
is_well = refl

first_report_silent_example :
    (overall [] ≡ Health.unknown)
    × ((apply_health_status [] well).0 ≡ false)
    × (overall (apply_health_status [] well).1 ≡ Health.healthy)
first_report_silent_example = first_report_silent well is_well

-- One aspect at the level of a warning and one below, with the threshold at the warning.
abbrev readings : List Reading
readings =
    record { name = "MemoryTemperature"; severity = 3 }
    ∷ record { name = "CoreTemperature"; severity = 1 }
    ∷ []

readings-Fresh : Fresh [] readings
unfolding lookup
readings-Fresh = (
  refl,
  ((λ e. absurd (ground (arith, e, eq_iff "MemoryTemperature" "CoreTemperature"))), tt),
  (refl, tt, tt),
)

health_values-unhealthy_example :
    (overall (health_values 3 readings []) ≡ Health.unhealthy)
    ↔ (any (λ r. leb 3 r.severity) readings ≡ true)
health_values-unhealthy_example = health_values-unhealthy 3 readings readings-Fresh
