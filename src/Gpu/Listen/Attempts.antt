-- ===== src/Gpu/Listen/Attempts.antt =====
-- How `waitForXPUMDStream` of cmd/kubelet-gpu-plugin/xpumd.go ends.
use intel_resource_drivers_f.Base.{
  ℕ, suc, ◌+◌, ◌≡◌, Bool, false, ◌||◌, List, [], ◌∷◌, ◌++◌, any, length, arith, if◌then◌else◌,
}
use intel_resource_drivers_f.Gpu.Listen.{connect_attempts_max, Attempt, Wait, wait_for_stream}

abbrev pub ends : Attempt → Bool
ends a = a.connected || a.stop

-- With a limit on the attempts to reach xpumd, `waitForXPUMDStream` ends with the attempts that fill
-- up the 30, whatever comes later: it returns a stream, or none to a listener that is to stop, if
-- one of them is answered or the listener is to stop by one of them, and an error otherwise.
pub wait_for_stream_lem :
    (attempt : ℕ) (first later : List Attempt)
    → attempt + length first ≡ connect_attempts_max
    → wait_for_stream false attempt (first ++ later)
      ≡ (if any ends first then Wait.answered else Wait.gave_up)
unfolding wait_for_stream
wait_for_stream_lem attempt [] [] e = ground (arith, e)
wait_for_stream_lem attempt [] (a ∷ later) e = ground (arith, e)
wait_for_stream_lem attempt (a ∷ rest) later e =
    ground (arith, e, wait_for_stream_lem (suc attempt) rest later (omega (arith, e)))
