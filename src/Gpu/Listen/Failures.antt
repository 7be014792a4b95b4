-- ===== src/Gpu/Listen/Failures.antt =====
-- When the listener of cmd/kubelet-gpu-plugin/xpumd.go panics.
use intel_resource_drivers_f.Base.{
  ℕ, suc, ◌+◌, ◌≤◌, ◌≡◌, refl, inl, inr, Bool, true, false, List, [], ◌∷◌, some, ltb, All, arith,
  Bool-cases, if◌then◌else◌, ◌∙◌, ap,
}
use intel_resource_drivers_f.Gpu.Xpumd.{DeviceHealth, consume_device_details}
use intel_resource_drivers_f.Gpu.Node.{NodeState}
use intel_resource_drivers_f.Gpu.Resources.{Helper, publish_resource_slice}
use intel_resource_drivers_f.Gpu.Streams.{build_health_response, broadcast_health_update}
use intel_resource_drivers_f.Gpu.Streams.Sound.{IsSound, update-Succeeds, Succeeds-result}
use intel_resource_drivers_f.Gpu.Listen.{max_errors, Received, Driver, Status, consume, listen}

-- A round that goes on, with a message or an error other than the end of the stream.
abbrev pub IsAnswer : Bool × Received → Type 0
IsAnswer (stop, Received.message ds) = stop ≡ false
IsAnswer (stop, Received.failed) = stop ≡ false
IsAnswer (stop, Received.ended attempts) = ⊥

-- The errors among the rounds, with any messages between them.
abbrev pub failures : List (Bool × Received) → ℕ
failures [] = 0
failures ((_, Received.failed) ∷ rounds) = suc (failures rounds)
failures ((_, Received.message _) ∷ rounds) = failures rounds
failures ((_, Received.ended _) ∷ rounds) = failures rounds

module _ {W : Type 0} (helper : Helper W) (warning critical : ℕ) (ignore_warning : Bool) where
  consume-IsSound :
      (ds : List DeviceHealth) (d : Driver W)
      → IsSound d.streams
      → (d' : Driver W) × (consume helper warning critical ignore_warning ds d ≡ some d')
        × IsSound d'.streams
  unfolding consume
  consume-IsSound ds d h =
      let r = consume_device_details warning critical ignore_warning ds d.state.allocatable in
      let s : NodeState W = record (d.state) { allocatable = r.1 } in
      elim (Bool-cases r.0) [
        | inr t ↦ (record d { state = s }, rw (consume, t) refl, h)
        | inl t ↦
            let s' = (publish_resource_slice helper s).1 in
            let (streams, e, sound) =
              Succeeds-result (broadcast_health_update (build_health_response s') d.streams)
                (update-Succeeds (build_health_response s') d.streams h) in
            (record { state = s'; streams = streams }, rw (consume, t, e) refl, sound)
      ]

  -- Let the listener of xpumd not wait without limit, be in its loop with at most 5 errors counted,
  -- and the channels of the registered streams be open. In rounds that each bring a message or an
  -- error other than the end of the stream, and no stop, it panics exactly if the errors counted and
  -- the errors of all rounds are more than 5 together, however many messages come between them.
  pub listen_lem :
      (rounds : List (Bool × Received)) (errors : ℕ) (d : Driver W)
      → All IsAnswer rounds
      → IsSound d.streams
      → errors ≤ max_errors
      → (listen helper warning critical ignore_warning false rounds errors d).0
        ≡ (if ltb max_errors (errors + failures rounds) then Status.panicked else Status.running)
  unfolding listen
  listen_lem [] errors d answers sound few = ground (arith, few)
  listen_lem ((false, Received.message ds) ∷ rounds) errors d answers sound few =
      let (d', e, sound') = consume-IsSound ds d sound in
      rw (listen, e) (listen_lem rounds errors d' answers.1 sound' few)
  listen_lem ((false, Received.failed) ∷ rounds) errors d answers sound few =
      elim (Bool-cases (ltb errors max_errors)) [
        | inl t ↦
            rw (listen, t)
              (listen_lem rounds (suc errors) d answers.1 sound (ground (arith, t))
                ∙ ap (λ n. if ltb max_errors n then Status.panicked else Status.running)
                    (omega arith))
        | inr t ↦
            let over : ltb max_errors (errors + suc (failures rounds)) ≡ true = ground (arith, t) in
            rw (listen, t, over) refl
      ]
  listen_lem ((true, Received.message ds) ∷ rounds) errors d answers sound few =
      absurd (ground (arith, answers.0))
  listen_lem ((true, Received.failed) ∷ rounds) errors d answers sound few =
      absurd (ground (arith, answers.0))
  listen_lem ((stop, Received.ended attempts) ∷ rounds) errors d answers sound few =
      absurd answers.0
