-- ===== src/Gpu/Tests/Streams.antt =====
-- Streams of one client and listeners of xpumd.
use intel_resource_drivers_f.Base.{◌≡◌, refl, Bool, true, false, List, [], ◌∷◌, ◌++◌, arith}
use intel_resource_drivers_f.Gpu.Resources.{Helper}
use intel_resource_drivers_f.Gpu.Listen.Attempts.{wait_for_stream_lem}
use intel_resource_drivers_f.Gpu.Listen.{
  Attempt, Wait, wait_for_stream, Received, Driver, Status, listen,
}
use intel_resource_drivers_f.Gpu.Listen.Failures.{listen_lem}
use intel_resource_drivers_f.Gpu.Start.{no_streams}
use intel_resource_drivers_f.Gpu.Streams.Sound.{Step, Succeeds, run, run-Succeeds}
use intel_resource_drivers_f.Gpu.Tests.{Sys, node}

-- A client comes and is told of no device; a second one goes at once; the first one reads, and goes.
run-Succeeds_example : Succeeds (
    run
      (Step.called true
        ∷ Step.updated []
        ∷ Step.called false
        ∷ Step.received 1 true
        ∷ Step.cancelled 1
        ∷ Step.received 1 true
        ∷ [])
      no_streams)
run-Succeeds_example =
    run-Succeeds
      (Step.called true
        ∷ Step.updated []
        ∷ Step.called false
        ∷ Step.received 1 true
        ∷ Step.cancelled 1
        ∷ Step.received 1 true
        ∷ [])
      no_streams tt

abbrev helper : Helper Sys
helper = record { publish_resources = λ _ w. (true, w) }

abbrev driver : Driver Sys
driver = record { state = node; streams = no_streams }

-- Six errors, with a message between them.
abbrev rounds : List (Bool × Received)
rounds =
    (false, Received.failed)
    ∷ (false, Received.failed)
    ∷ (false, Received.failed)
    ∷ (false, Received.message [])
    ∷ (false, Received.failed)
    ∷ (false, Received.failed)
    ∷ (false, Received.failed)
    ∷ []

listen_lem_example : (listen helper 2 3 true false rounds 0 driver).0 ≡ Status.panicked
listen_lem_example =
    listen_lem helper 2 3 true rounds 0 driver
      (refl, (refl, (refl, (refl, (refl, (refl, (refl, tt))))))) tt (omega arith)

abbrev refused : Attempt
refused = record { connected = false; stop = false }

-- The last two attempts fail, and an answer comes too late.
wait_for_stream_lem_example :
    wait_for_stream false 28
      ((refused ∷ refused ∷ []) ++ (record { connected = true; stop = false } ∷ []))
    ≡ Wait.gave_up
wait_for_stream_lem_example =
    wait_for_stream_lem 28 (refused ∷ refused ∷ []) (record { connected = true; stop = false } ∷ [])
      refl
