-- ===== src/Lifecycle/Tests.antt =====
-- A lifecycle through a failure, a retry and a stop.
use last_audio_memory_buffer.Base.{
  ℕ, ◌⊎◌, ◌≢◌, ◌+◌, ◌*◌, ◌≤◌, ◌<◌, ◌≡◌, refl, List, [], ◌∷◌, none, some, arith, min, checked_add,
  u64_max, u32_max,
}
use last_audio_memory_buffer.Base.Error.{ok, err, control, control_invariant}
use last_audio_memory_buffer.Lifecycle.{
  LifecycleState, stopping, waiting_for_device, ready_stopped, mark_transient, begin_operation,
  Event, start, fail_permanently, fail_transiently, run, shut_down, begin, report, publish, steps,
  step, mark_starting,
}
use last_audio_memory_buffer.Lifecycle.Retry.{backoff_seconds, transient_lem}
use last_audio_memory_buffer.Lifecycle.Begin.{begin_lem, begin-fresh}
use last_audio_memory_buffer.Lifecycle.Status.{IsConsistent, fresh-IsConsistent, steps-IsConsistent}

abbrev idle : LifecycleState
unfolding ready_stopped
idle = ready_stopped (some "studio")

abbrev history : List Event
history =
    begin
    ∷ start none
    ∷ fail_transiently waiting_for_device "gone" 5
    ∷ fail_transiently waiting_for_device "gone" 1005
    ∷ run none (some "mic")
    ∷ report "overrun"
    ∷ fail_permanently "no port"
    ∷ publish (some 1) (ready_stopped none)
    ∷ shut_down
    ∷ []

transient_example :
    let s' = mark_transient waiting_for_device "gone" 5 idle in
    (s'.retry_attempt ≡ min (idle.retry_attempt + 1) u32_max)
    × ((at : ℕ) × (s'.next_retry_at ≡ some at)
        × (min (5 + 1000) u64_max ≤ at)
        × (at ≤ 5 + 60000)
        × (at ≤ u64_max)
        × (at ≡ min (5 + 1000 * backoff_seconds s'.retry_attempt) u64_max))
transient_example = transient_lem waiting_for_device "gone" 5 idle (omega arith)

begin-fresh_example : 1 < 2
unfolding begin_operation checked_add steps step mark_starting idle
begin-fresh_example =
    begin-fresh idle (record idle { generation = 1 }) (start none ∷ []) 1 2 refl refl

begin_example :
    ((idle.daemon_state ≡ stopping)
      × (begin_operation idle ≡ (idle, err (control "daemon is stopping"))))
    ⊎ ((idle.daemon_state ≢ stopping)
        × (u64_max ≤ idle.generation)
        × (begin_operation idle ≡ (idle, err (control_invariant "operation generation overflow"))))
    ⊎ ((idle.daemon_state ≢ stopping)
        × (idle.generation < u64_max)
        × (begin_operation idle
            ≡ (record idle { generation = idle.generation + 1 }, ok (idle.generation + 1))))
begin_example = begin_lem idle

steps-IsConsistent_example : IsConsistent (steps idle history)
unfolding idle
steps-IsConsistent_example =
    steps-IsConsistent idle history
      (
        tt,
        (tt, (omega arith, (omega arith, (tt, (tt, (tt, (fresh-IsConsistent none, (tt, tt)))))))),
      )
      (fresh-IsConsistent (some "studio"))
