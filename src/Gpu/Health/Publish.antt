-- ===== src/Gpu/Health/Publish.antt =====
-- When a health report is published, and which categories it replaces.
use intel_resource_drivers_f.Base.{
  ◌≡◌, refl, sym, ◌∙◌, ◌↔◌, inl, inr, Bool, true, false, ◌&&◌, String, List, [], ◌∷◌, some, arith,
  Dict, lookup, insert, has, any, All, any-All, All-lookup, if◌then◌else◌, str_eq, eq_iff,
  lookup-insert, Distinct, Distinct-insert, any_of_lookup, lookup_of_any, Option-cases,
}
use intel_resource_drivers_f.Gpu.Types.{Health, health_eq, overall, health_from, health_custom_list}
use intel_resource_drivers_f.Gpu.Health.{
  changed, dropped, carry_over, unknown_publishes, apply_health_status,
}

abbrev pub is_unhealthy : String × Health → Bool
is_unhealthy e = health_eq e.1 Health.unhealthy

-- The map reads unhealthy exactly when one of its categories is.
health_from-unhealthy :
    (b : Bool) (m : Dict Health) → health_eq (health_from b m) Health.unhealthy ≡ any is_unhealthy m
unfolding health_from
health_from-unhealthy true [] = refl
health_from-unhealthy false [] = refl
health_from-unhealthy b ((k, Health.unhealthy) ∷ m) = refl
health_from-unhealthy b ((k, Health.healthy) ∷ m) = health_from-unhealthy false m
health_from-unhealthy b ((k, Health.unknown) ∷ m) = health_from-unhealthy b m

eq_of_health_eq : (g h : Health) → health_eq g h ≡ true → g ≡ h
eq_of_health_eq g h e = ground arith

lookup-carry_over :
    (ks : List String) (old new : Dict Health) (j : String)
    → lookup j (carry_over ks old new)
      ≡ (if any (λ k. str_eq k j) ks && has j old then lookup j old else lookup j new)
unfolding carry_over
lookup-carry_over [] old new j = refl
lookup-carry_over (k ∷ ks) old new j = elim (Option-cases (lookup k old)) [
  | inl e ↦ rw (e, carry_over) (ground (arith, lookup-carry_over ks old new j, eq_iff k j, e))
  | inr (h, e) ↦
      rw (e, carry_over)
        (ground (
          arith,
          lookup-carry_over ks old (insert k h new) j,
          lookup-insert k j h new,
          eq_iff k j,
          e,
        ))
]

Distinct-carry_over :
    (ks : List String) (old new : Dict Health) → Distinct new → Distinct (carry_over ks old new)
unfolding carry_over
Distinct-carry_over [] old new d = d
Distinct-carry_over (k ∷ ks) old new d = elim (Option-cases (lookup k old)) [
  | inl e ↦ rw (e, carry_over) (Distinct-carry_over ks old new d)
  | inr (h, e) ↦
      rw (e, carry_over) (Distinct-carry_over ks old (insert k h new) (Distinct-insert k h new d))
]

abbrev pub is_custom : String → Bool
is_custom j = any (λ k. str_eq k j) health_custom_list

-- After `applyHealthStatus`, a category of the driver's own that had a value keeps it; every other
-- category is as reported, and one that is not reported is gone.
pub lookup-apply_health_status :
    (old new : Dict Health) (j : String)
    → lookup j (apply_health_status old new).1
      ≡ (if is_custom j && has j old then lookup j old else lookup j new)
unfolding apply_health_status
lookup-apply_health_status old new j = lookup-carry_over health_custom_list old new j

pub unhealthy_any : (m : Dict Health) → overall m ≡ Health.unhealthy → any is_unhealthy m ≡ true
unfolding overall
unhealthy_any m h = sym (health_from-unhealthy true m) ∙ rw h

pub any_unhealthy : (m : Dict Health) → any is_unhealthy m ≡ true → overall m ≡ Health.unhealthy
unfolding overall
any_unhealthy m h = eq_of_health_eq _ _ (health_from-unhealthy true m ∙ h)

module _ (old new : Dict Health) (d : Distinct old) (e : Distinct new)
    (silent : (apply_health_status old new).0 ≡ false) where
  unchanged : All (λ x. changed old x ≡ false) new
  unfolding apply_health_status
  unchanged = any-All (changed old) new (ground (arith, silent))

  reported : All (λ x. dropped new x ≡ false) old
  unfolding apply_health_status
  reported = any-All (dropped new) old (ground (arith, silent))

  distinct : Distinct (apply_health_status old new).1
  unfolding apply_health_status
  distinct = Distinct-carry_over health_custom_list old new e

  stays_unhealthy :
      (k : String)
      → lookup k old ≡ some Health.unhealthy
      → lookup k (apply_health_status old new).1 ≡ some Health.unhealthy
  unfolding dropped changed
  stays_unhealthy k o = elim (Option-cases (lookup k new)) [
    | inl n ↦ absurd (ground (arith, All-lookup (λ x. dropped new x ≡ false) k old reported o, n))
    | inr (h, n) ↦ ground (
      arith,
      lookup-apply_health_status old new k,
      All-lookup (λ x. changed old x ≡ false) k new unchanged n,
      n,
      o,
    )
  ]

  was_unhealthy :
      (k : String)
      → lookup k (apply_health_status old new).1 ≡ some Health.unhealthy
      → lookup k old ≡ some Health.unhealthy
  unfolding changed
  was_unhealthy k m = elim (Option-cases (lookup k old)) [
    | inl o ↦
        let n : lookup k new ≡ some Health.unhealthy =
          ground (arith, lookup-apply_health_status old new k, m, o) in
        absurd (ground (arith, All-lookup (λ x. changed old x ≡ false) k new unchanged n, o))
    | inr (g, o) ↦ elim (Option-cases (lookup k new)) [
      | inl n ↦ ground (arith, lookup-apply_health_status old new k, m, o, n)
      | inr (h, n) ↦ ground (
        arith,
        lookup-apply_health_status old new k,
        All-lookup (λ x. changed old x ≡ false) k new unchanged n,
        m,
        n,
        o,
      )
    ]
  ]

  -- Of two maps without a repeated category, when `applyHealthStatus` asks for no publication, the
  -- overall health of the device is unhealthy after it exactly if it was before.
  pub silent_unhealthy :
      (overall (apply_health_status old new).1 ≡ Health.unhealthy)
      ↔ (overall old ≡ Health.unhealthy)
  silent_unhealthy = (
    (λ h.
        let (k, v, l, p) =
          lookup_of_any is_unhealthy (apply_health_status old new).1 distinct
            (unhealthy_any (apply_health_status old new).1 h) in
        any_unhealthy old (
          any_of_lookup is_unhealthy k Health.unhealthy old
            (was_unhealthy k (rw (eq_of_health_eq v Health.unhealthy p) at l)) refl)),
    (λ h.
        let (k, v, l, p) = lookup_of_any is_unhealthy old d (unhealthy_any old h) in
        any_unhealthy (apply_health_status old new).1 (
          any_of_lookup is_unhealthy k Health.unhealthy (apply_health_status old new).1
            (stays_unhealthy k (rw (eq_of_health_eq v Health.unhealthy p) at l)) refl)),
  )

any-changed_nil : (new : Dict Health) → any (changed []) new ≡ any is_unhealthy new
unfolding changed lookup
any-changed_nil [] = refl
any-changed_nil ((t, h) ∷ new) = rw (any-changed_nil new)

-- When the first report of a device without health says that all is well, the overall health goes
-- from unknown to healthy, and `applyHealthStatus` asks for no publication.
pub first_report_silent :
    (new : Dict Health)
    → overall new ≡ Health.healthy
    → (overall [] ≡ Health.unknown)
      × ((apply_health_status [] new).0 ≡ false)
      × (overall (apply_health_status [] new).1 ≡ Health.healthy)
unfolding apply_health_status overall health_from unknown_publishes carry_over lookup
first_report_silent new h =
    (refl, ground (arith, any-changed_nil new, health_from-unhealthy true new, h), h)
