-- ===== src/Scheduler/Tests.antt =====
-- A scheduler with a retry of generation 3 that is due at 50.
use last_audio_memory_buffer.Base.{
  ap, sym, ◌-◌, ◌≤◌, ◌<◌, ◌≡◌, ◌⊎◌, inl, inr, refl, List, [], ◌∷◌, none, some, arith, true, false,
}
use last_audio_memory_buffer.Scheduler.{
  ScheduledOperation, pending_generation, retry, SchedulerState, initial, schedule_retry,
  invalidate, stop, Submission, accepted, full, returns, continues, waits_for, worker_turn,
  pending_operation, retry_at, Event, scheduled, lane_available, turned, run,
}
use last_audio_memory_buffer.Scheduler.Pending.{IsCurrent, initial-IsCurrent}
use last_audio_memory_buffer.Scheduler.Blocked.{AllSame, blocked-turn}
use last_audio_memory_buffer.Scheduler.Runs.{
  AllFrom, run-IsCurrent, invalidate-run, stop-run, schedule_retry-turn,
}

abbrev accepts : ScheduledOperation → Submission
accepts operation = accepted

abbrev events : List Event
events =
    scheduled 3 50
    ∷ turned 10 accepts
    ∷ lane_available
    ∷ turned 60 accepts
    ∷ scheduled 2 70
    ∷ turned 90 accepts
    ∷ []

abbrev armed : SchedulerState
armed = record {
  generation = 3;
  pending = some (retry_at 3 50);
  stopped = false;
  wake_epoch = 1;
  thread_spawned = true;
}

armed-IsCurrent : IsCurrent armed
unfolding pending_generation
armed-IsCurrent = record {
  stopped_empty = λ h. absurd cc;
  generations = λ p h. let i : retry_at 3 50 ≡ p = cc in ap pending_generation (sym i);
}

abbrev refuses : ScheduledOperation → Submission
refuses operation = full

-- A turn before the due time, and one at it with a full lane, and then the lane's notification.
abbrev blocked : List Event
blocked = turned 10 accepts ∷ turned 50 refuses ∷ lane_available ∷ []

blocked-turn_example :
    ((run armed blocked).0.pending ≡ some (retry_at 3 50))
    × AllSame (pending_operation (retry_at 3 50)) (run armed blocked).1
    × (worker_turn 60 accepts (run armed blocked).0 ≡ record {
      state = record (run armed blocked).0 { pending = none };
      submitted = some (pending_operation (retry_at 3 50));
      turn = continues;
    })
unfolding pending_generation
blocked-turn_example =
    blocked-turn (retry_at 3 50) armed blocked 60 accepts
      (record { running = refl; pending = refl; current = refl })
      (inl (omega arith), (inr refl, (tt, tt))) (omega arith) cc

run-IsCurrent_example : IsCurrent (run initial events).0
run-IsCurrent_example = run-IsCurrent initial events initial-IsCurrent

invalidate-run_example : AllFrom 4 (run (invalidate 4 armed) events).1
invalidate-run_example = invalidate-run 4 armed events armed-IsCurrent

stop-run_example :
    ((run (stop armed) events).1 ≡ [])
    × ((worker_turn 99 accepts (run (stop armed) events).0).turn ≡ returns)
stop-run_example = stop-run armed events 99 accepts armed-IsCurrent

schedule_retry-turn_example :
    ((60 < 80)
      × (worker_turn 60 accepts (schedule_retry 5 80 armed) ≡ record {
        state = schedule_retry 5 80 armed;
        submitted = none;
        turn = waits_for (80 - 60);
      }))
    ⊎ ((80 ≤ 60)
        × ((worker_turn 60 accepts (schedule_retry 5 80 armed)).submitted ≡ some (retry 5)))
schedule_retry-turn_example = schedule_retry-turn 5 80 60 accepts armed refl (omega arith)
