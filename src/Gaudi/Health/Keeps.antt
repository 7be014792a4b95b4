-- ===== src/Gaudi/Health/Keeps.antt =====
-- What `startHealthMonitor` of cmd/kubelet-gaudi-plugin/healthcare.go can do to the devices.
use intel_resource_drivers_f.Base.{
  ℕ, zero, suc, ◌≡◌, refl, subst, ◌∙◌, ◌⊎◌, inl, inr, false, String, List, [], ◌∷◌, Option, none,
  some, lookup, lookup-insert, Option-cases, Bool-cases, str_eq-cases,
}
use intel_resource_drivers_f.Gaudi.Types.{DeviceInfo, DevicesInfo}
use intel_resource_drivers_f.Gaudi.Node.{NodeState}
use intel_resource_drivers_f.Gaudi.Health.{
  Hlml, Cluster, set_healthy, change, update_health, update_all, timed_hlml_event_check, tick,
  ticks, register_all, start_health_monitor,
}

-- A device is as it was, or the same but unhealthy.
abbrev pub Declines : Option DeviceInfo → Option DeviceInfo → Type 0
Declines none o = o ≡ none
Declines (some g) o = (o ≡ some g) ⊎ (o ≡ some (record g { healthy = false }))

Declines-refl : (o : Option DeviceInfo) → Declines o o
Declines-refl none = refl
Declines-refl (some g) = inl refl

Declines-trans : (o p q : Option DeviceInfo) → Declines o p → Declines p q → Declines o q
Declines-trans none p q h k = subst (λ (x : Option DeviceInfo). Declines x q) h k
Declines-trans (some g) p q (inl e) k = subst (λ (x : Option DeviceInfo). Declines x q) e k
Declines-trans (some g) p q (inr e) k = elim (subst (λ (x : Option DeviceInfo). Declines x q) e k) [
  | inl f ↦ inr f
  | inr f ↦ inr f
]

Declines-change :
    (uid key : String) (devices : DevicesInfo)
    → Declines (lookup key devices) (lookup key (change uid (set_healthy false) devices))
unfolding change set_healthy
Declines-change uid key devices = elim (Option-cases (lookup uid devices)) [
  | inl e ↦ rw (e, change) (Declines-refl (lookup key devices))
  | inr (g, e) ↦ elim (str_eq-cases uid key) [
    | inr (t, q) ↦ rw (e, change, lookup-insert, t) (Declines-refl (lookup key devices))
    | inl (t, q) ↦
        let here : lookup key devices ≡ some g =
          subst (λ (k : String). lookup k devices ≡ some g) q e in
        rw (e, change, lookup-insert, t, here) (inr refl)
  ]
]

module _ {W H : Type 0} (hlml : Hlml W H) (cluster : Cluster W) where
  -- The claims and the node are as they were, and each device declines.
  abbrev pub StateDeclines : NodeState W → NodeState W → Type 0
  StateDeclines s t =
      ((key : String) → Declines (lookup key s.allocatable) (lookup key t.allocatable))
      × (t.prepared ≡ s.prepared)
      × (t.node_name ≡ s.node_name)

  StateDeclines-refl : (s : NodeState W) → StateDeclines s s
  StateDeclines-refl s = ((λ key. Declines-refl (lookup key s.allocatable)), refl, refl)

  StateDeclines-trans :
      (s t u : NodeState W) → StateDeclines s t → StateDeclines t u → StateDeclines s u
  StateDeclines-trans s t u h k = (
    (λ key.
        Declines-trans (lookup key s.allocatable) (lookup key t.allocatable)
          (lookup key u.allocatable) (h.0 key) (k.0 key)),
    k.1 ∙ h.1,
    k.2 ∙ h.2,
  )

  pub update_health-StateDeclines :
      (uid : String) (s : NodeState W) → StateDeclines s (update_health hlml cluster false uid s)
  unfolding update_health
  update_health-StateDeclines uid s = elim (Option-cases (lookup uid s.allocatable)) [
    | inl e ↦ rw (e, update_health) (StateDeclines-refl s)
    | inr (g, e) ↦
        rw (e, update_health) ((λ key. Declines-change uid key s.allocatable), refl, refl)
  ]

  pub update_all-StateDeclines :
      (uids : List String) (s : NodeState W) → StateDeclines s (update_all hlml cluster uids s)
  unfolding update_all
  update_all-StateDeclines [] s = StateDeclines-refl s
  update_all-StateDeclines (uid ∷ uids) s =
      let s' = update_health hlml cluster false uid s in
      StateDeclines-trans s s' (update_all hlml cluster uids s') (update_health-StateDeclines uid s)
        (update_all-StateDeclines uids s')

  pub tick-StateDeclines : (s : NodeState W) → StateDeclines s (tick hlml cluster s)
  unfolding tick
  tick-StateDeclines s =
      let checked = timed_hlml_event_check hlml s.allocatable s.world in
      let s' : NodeState W = record s { world = checked.2 } in
      elim (Bool-cases checked.0) [
        | inl t ↦ rw (t, tick) (update_all-StateDeclines checked.1 s')
        | inr t ↦ rw (t, tick) (StateDeclines-refl s')
      ]

  ticks-StateDeclines : (n : ℕ) (s : NodeState W) → StateDeclines s (ticks hlml cluster n s)
  unfolding ticks
  ticks-StateDeclines zero s = StateDeclines-refl s
  ticks-StateDeclines (suc n) s =
      let s' = tick hlml cluster s in
      StateDeclines-trans s s' (ticks hlml cluster n s') (tick-StateDeclines s)
        (ticks-StateDeclines n s')

  -- However many ticks the monitor of Gaudi devices runs and whatever HLML answers, the prepared
  -- claims and the name of the node stay, no device comes or goes, and each device is as it was or
  -- the same but unhealthy: the monitor never makes a device healthy again.
  pub start_health_monitor-StateDeclines :
      (n : ℕ) (s : NodeState W) → StateDeclines s (start_health_monitor hlml cluster n s)
  unfolding start_health_monitor
  start_health_monitor-StateDeclines n s =
      let registered = register_all hlml s.allocatable s.world in
      let s' : NodeState W = record s { world = registered.2 } in
      let t = update_all hlml cluster registered.0 s' in
      elim (Bool-cases registered.1) [
        | inl b ↦ rw (b, start_health_monitor) (update_all-StateDeclines registered.0 s')
        | inr b ↦
            rw (b, start_health_monitor)
              (StateDeclines-trans s t (ticks hlml cluster n t)
                (update_all-StateDeclines registered.0 s') (ticks-StateDeclines n t))
      ]
