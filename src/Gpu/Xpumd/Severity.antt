-- ===== src/Gpu/Xpumd/Severity.antt =====
-- When a device that xpumd reports is unhealthy.
use intel_resource_drivers_f.Base.{
  ℕ, ◌≡◌, refl, ◌≢◌, ◌↔◌, Bool, true, false, ◌||◌, String, List, [], ◌∷◌, Dict, insert, lookup, has,
  any, All, arith, if◌then◌else◌, leb, eq_iff, lookup-insert,
}
use intel_resource_drivers_f.Gpu.Types.{Health, overall}
use intel_resource_drivers_f.Gpu.Health.Publish.{is_unhealthy, unhealthy_any, any_unhealthy}
use intel_resource_drivers_f.Gpu.Xpumd.{Reading, health_values}

-- The aspects have names of their own, and none of them is in the map.
abbrev pub Fresh : Dict Health → List Reading → Type 0
Fresh m [] = Unit
Fresh m (r ∷ rs) = (has r.name m ≡ false) × All (λ s. r.name ≢ s.name) rs × Fresh m rs

any-insert :
    (p : String × Health → Bool) (k : String) (v : Health) (m : Dict Health)
    → has k m ≡ false
    → any p (insert k v m) ≡ (p (k, v) || any p m)
unfolding insert lookup
any-insert p k v [] h = refl
any-insert p k v ((j, w) ∷ m) h = ground (arith, h, any-insert p k v m)

Fresh-insert :
    (k : String) (v : Health) (m : Dict Health) (rs : List Reading)
    → All (λ s. k ≢ s.name) rs
    → Fresh m rs
    → Fresh (insert k v m) rs
Fresh-insert k v m [] n f = tt
Fresh-insert k v m (r ∷ rs) n f = (
  ground (arith, lookup-insert k r.name v m, eq_iff k r.name, n.0, f.0),
  f.1,
  Fresh-insert k v m rs n.1 f.2,
)

any-health_values :
    (t : ℕ) (rs : List Reading) (m : Dict Health)
    → Fresh m rs
    → any is_unhealthy (health_values t rs m)
      ≡ (any (λ r. leb t r.severity) rs || any is_unhealthy m)
unfolding health_values
any-health_values t [] m f = refl
any-health_values t (r ∷ rs) m f =
    let v = if leb t r.severity then Health.unhealthy else Health.healthy in
    ground (
      arith,
      any-health_values t rs (insert r.name v m) (Fresh-insert r.name v m rs f.1 f.2),
      any-insert is_unhealthy r.name v m f.0,
    )

-- When the aspects of a device's health that xpumd reports have distinct names, the device reads as
-- unhealthy exactly if the severity of one of them reaches the threshold.
pub health_values-unhealthy :
    (threshold : ℕ) (rs : List Reading)
    → Fresh [] rs
    → (overall (health_values threshold rs []) ≡ Health.unhealthy)
      ↔ (any (λ r. leb threshold r.severity) rs ≡ true)
health_values-unhealthy threshold rs f = (
  (λ h. ground (arith, any-health_values threshold rs [] f, unhealthy_any _ h)),
  (λ h. any_unhealthy _ (ground (arith, any-health_values threshold rs [] f, h))),
)
