-- ===== src/Gaudi/Health/Critical.antt =====
-- What a critical event of HLML does to the devices: `timedHLMLEventCheck` and `updateHealth` of
-- cmd/kubelet-gaudi-plugin/healthcare.go.
use intel_resource_drivers_f.Base.{
  ◌≡◌, ◌≢◌, refl, sym, subst, ◌⊎◌, ◌∙◌, ap, inl, inr, Bool, true, false, ◌&&◌, String, List, [],
  ◌∷◌, Option, none, some, lookup, has, any, All, Distinct, lookup_of_any, arith, lookup-insert,
  eq_iff, eq_refl, Option-cases, Bool-cases, str_eq-cases, str_eq, if◌then◌else◌,
}
use intel_resource_drivers_f.Gaudi.Types.{DeviceInfo, DevicesInfo}
use intel_resource_drivers_f.Gaudi.Node.{NodeState}
use intel_resource_drivers_f.Gaudi.Health.{
  Hlml, Cluster, Event, set_healthy, change, keys, uid_of_serial, critical_uids, update_health,
  update_all, timed_hlml_event_check, tick,
}
use intel_resource_drivers_f.Gaudi.Health.Keeps.{
  Declines, update_all-StateDeclines, tick-StateDeclines,
}

-- No device is there, or it is unhealthy.
abbrev pub IsDown : Option DeviceInfo → Type 0
IsDown none = Unit
IsDown (some g) = g.healthy ≡ false

IsDown-Declines : (o p : Option DeviceInfo) → Declines o p → IsDown o → IsDown p
IsDown-Declines none p h d = subst IsDown (sym h) tt
IsDown-Declines (some g) p (inl e) d = subst IsDown (sym e) d
IsDown-Declines (some g) p (inr e) d = subst IsDown (sym e) refl

-- The device, unhealthy.
abbrev pub marked : Option DeviceInfo → Option DeviceInfo
marked none = none
marked (some g) = some (record g { healthy = false })

-- A device that declines and is down was there, and is marked.
marked_lem : (o p : Option DeviceInfo) → Declines o p → IsDown p → p ≡ marked o
marked_lem none p h d = h
marked_lem (some g) p (inr e) d = e
marked_lem (some g) p (inl e) d =
    let down : g.healthy ≡ false = subst IsDown e d in
    e ∙ ap (λ (b : Bool). some (record g { healthy = b })) down

abbrev pub among : String → List String → Bool
among key = any (λ u. str_eq u key)

among-keys : (key : String) (devices : DevicesInfo) → among key (keys devices) ≡ has key devices
unfolding lookup
among-keys key [] = refl
among-keys key ((k, g) ∷ devices) = ground (arith, among-keys key devices)

abbrev pub IsFiled : String × DeviceInfo → Type 0
IsFiled (k, g) = k ≡ g.uid

has_serial : String → String → String × DeviceInfo → Bool
has_serial serial uid (k, g) = str_eq k uid && str_eq g.serial serial

uid_of_serial_lem :
    (serial uid : String) (devices : DevicesInfo)
    → All IsFiled devices
    → uid_of_serial serial devices ≡ some uid
    → any (has_serial serial uid) devices ≡ true
unfolding uid_of_serial has_serial
uid_of_serial_lem serial uid [] f e = absurd (ground (arith, e))
uid_of_serial_lem serial uid ((k, g) ∷ devices) f e =
    ground (arith, e, f.0, eq_iff k uid, uid_of_serial_lem serial uid devices f.1)

change-IsDown :
    (uid : String) (g : DeviceInfo) (devices : DevicesInfo)
    → lookup uid devices ≡ some g
    → IsDown (lookup uid (change uid (set_healthy false) devices))
unfolding change set_healthy
change-IsDown uid g devices e = rw (e, change, lookup-insert, eq_refl uid) refl

module _ {W H : Type 0} (hlml : Hlml W H) (cluster : Cluster W) where
  update_health-IsDown :
      (uid : String) (s : NodeState W)
      → IsDown (lookup uid (update_health hlml cluster false uid s).allocatable)
  unfolding update_health
  update_health-IsDown uid s = elim (Option-cases (lookup uid s.allocatable)) [
    | inl e ↦ rw (e, update_health, e) tt
    | inr (g, e) ↦ rw (e, update_health) (change-IsDown uid g s.allocatable e)
  ]

  update_all-IsDown :
      (key : String) (uids : List String) (s : NodeState W)
      → among key uids ≡ true
      → IsDown (lookup key (update_all hlml cluster uids s).allocatable)
  unfolding update_all
  update_all-IsDown key [] s h = absurd (ground (arith, h))
  update_all-IsDown key (uid ∷ uids) s h = elim (str_eq-cases uid key) [
    | inr (t, q) ↦
        update_all-IsDown key uids (update_health hlml cluster false uid s) (ground (arith, h, t))
    | inl (t, q) ↦
        let s' = update_health hlml cluster false uid s in
        IsDown-Declines (lookup key s'.allocatable)
          (lookup key (update_all hlml cluster uids s').allocatable)
          ((update_all-StateDeclines hlml cluster uids s').0 key)
          (subst (λ (k : String). IsDown (lookup k s'.allocatable)) q (update_health-IsDown uid s))
  ]

  -- All devices are down, or one that the event's handle gives the serial of is.
  abbrev Reached : String → W → DevicesInfo → DevicesInfo → Type 0
  Reached event_serial w before after =
      ((key : String) → IsDown (lookup key after))
      ⊎ ((handle : H) × (serial : String) × (uid : String) × (g : DeviceInfo)
          × (hlml.device_handle_by_serial event_serial w ≡ some handle)
          × (hlml.serial_number handle w ≡ some serial)
          × (lookup uid before ≡ some g)
          × (g.serial ≡ serial)
          × IsDown (lookup uid after))

  update_keys-IsDown :
      (key : String) (s : NodeState W)
      → IsDown (lookup key (update_all hlml cluster (keys s.allocatable) s).allocatable)
  update_keys-IsDown key s = elim (Option-cases (lookup key s.allocatable)) [
    | inr (g, e) ↦
        update_all-IsDown key (keys s.allocatable) s
          (among-keys key s.allocatable ∙ ground (arith, e))
    | inl e ↦
        let same : lookup key (update_all hlml cluster (keys s.allocatable) s).allocatable ≡ none =
          subst
            (λ (o : Option DeviceInfo).
              Declines o (lookup key (update_all hlml cluster (keys s.allocatable) s).allocatable))
            e ((update_all-StateDeclines hlml cluster (keys s.allocatable) s).0 key) in
        subst IsDown (sym same) tt
  ]

  critical_uids-Reached :
      (event_serial : String) (s : NodeState W)
      → All IsFiled s.allocatable
      → Distinct s.allocatable
      → Reached event_serial s.world s.allocatable
          (update_all hlml cluster
            (critical_uids hlml event_serial s.allocatable s.world)
            s).allocatable
  unfolding critical_uids has_serial
  critical_uids-Reached event_serial s filed distinct =
      elim (Option-cases (hlml.device_handle_by_serial event_serial s.world)) [
        | inl e ↦ rw (e, critical_uids) (inl (λ key. update_keys-IsDown key s))
        | inr (handle, e) ↦ elim (Option-cases (hlml.serial_number handle s.world)) [
          | inl f ↦ rw (e, f, critical_uids) (inl (λ key. update_keys-IsDown key s))
          | inr (serial, f) ↦ elim (Bool-cases (str_eq serial "")) [
            | inl t ↦ rw (e, f, t, critical_uids) (inl (λ key. update_keys-IsDown key s))
            | inr t ↦ elim (Option-cases (uid_of_serial serial s.allocatable)) [
              | inl k ↦ rw (e, f, t, k, critical_uids) (inl (λ key. update_keys-IsDown key s))
              | inr (uid, k) ↦
                  let (key, g, found, test) =
                    lookup_of_any (has_serial serial uid) s.allocatable distinct
                      (uid_of_serial_lem serial uid s.allocatable filed k) in
                  let same : key ≡ uid = ground (arith, test, eq_iff key uid) in
                  let carries : g.serial ≡ serial = ground (arith, test, eq_iff g.serial serial) in
                  rw (e, f, t, k, critical_uids)
                    (inr (
                      handle,
                      serial,
                      uid,
                      g,
                      refl,
                      f,
                      subst (λ (x : String). lookup x s.allocatable ≡ some g) same found,
                      carries,
                      update_all-IsDown uid (uid ∷ []) s (ground (arith, eq_refl uid)),
                    ))
            ]
          ]
        ]
      ]

  -- A tick, from the answer of the check on.
  abbrev after : NodeState W → Bool × List String × W → NodeState W
  after s (push, uids, w) =
      if push then update_all hlml cluster uids (record s { world = w }) else record s { world = w }

  tick-Reached :
      (s : NodeState W) (e : Event) (w : W)
      → All IsFiled s.allocatable
      → Distinct s.allocatable
      → hlml.critical_error ≢ 0
      → hlml.wait_for_event s.world ≡ (some e, w)
      → e.etype ≡ hlml.critical_error
      → Reached e.serial w s.allocatable (tick hlml cluster s).allocatable
  unfolding tick timed_hlml_event_check
  tick-Reached s e w filed distinct nonzero received critical =
      let checked : timed_hlml_event_check hlml s.allocatable s.world
          ≡ (true, critical_uids hlml e.serial s.allocatable w, w) =
        rw (received, timed_hlml_event_check) (ground (arith, critical, nonzero)) in
      subst (λ (t : NodeState W). Reached e.serial w s.allocatable t.allocatable)
        (sym (ap (after s) checked))
        (critical_uids-Reached e.serial (record s { world = w }) filed distinct)

  -- The devices are those that were there, each one unhealthy; or one device that was there with the serial
  -- that the event's handle has is there, unhealthy and otherwise the same.
  abbrev pub Caught : String → W → DevicesInfo → DevicesInfo → Type 0
  Caught event_serial w before after =
      ((key : String) → lookup key after ≡ marked (lookup key before))
      ⊎ ((handle : H) × (serial : String) × (uid : String) × (g : DeviceInfo)
          × (hlml.device_handle_by_serial event_serial w ≡ some handle)
          × (hlml.serial_number handle w ≡ some serial)
          × (lookup uid before ≡ some g)
          × (g.serial ≡ serial)
          × (lookup uid after ≡ some (record g { healthy = false })))

  -- Let each device be filed under its UID, no name be repeated, and the code of a critical event
  -- not be 0. When a tick of the monitor receives a critical event, the devices after the tick are
  -- those that were there, each one unhealthy and otherwise the same, or the handle that HLML gives
  -- for the serial of the event has a serial, and one device that was there with this serial is
  -- there after the tick, unhealthy and otherwise the same.
  pub tick-Caught :
      (s : NodeState W) (e : Event) (w : W)
      → All IsFiled s.allocatable
      → Distinct s.allocatable
      → hlml.critical_error ≢ 0
      → hlml.wait_for_event s.world ≡ (some e, w)
      → e.etype ≡ hlml.critical_error
      → Caught e.serial w s.allocatable (tick hlml cluster s).allocatable
  tick-Caught s e w filed distinct nonzero received critical =
      let after_tick = (tick hlml cluster s).allocatable in
      let declines = (tick-StateDeclines hlml cluster s).0 in
      elim (tick-Reached s e w filed distinct nonzero received critical) [
        | inl all ↦ inl (λ key.
            marked_lem (lookup key s.allocatable) (lookup key after_tick) (declines key) (all key))
        | inr (handle, serial, uid, g, h, n, found, same, down) ↦ inr (
          handle,
          serial,
          uid,
          g,
          h,
          n,
          found,
          same,
          marked_lem (lookup uid s.allocatable) (lookup uid after_tick) (declines uid) down
              ∙ ap marked found,
        )
      ]
