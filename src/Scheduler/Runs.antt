-- ===== src/Scheduler/Runs.antt =====
-- Whole runs of the scheduler: which operations a sequence of events can submit.
use last_audio_memory_buffer.Base.{
  ℕ, List, [], ◌∷◌, Option-cases, ◌-◌, ◌≤◌, ◌<◌, ◌≡◌, ◌⊎◌, inl, inr, refl, ap, ◌∙◌, true, false,
  lt-or-le, none, some, arith,
}
use last_audio_memory_buffer.Scheduler.{
  ScheduledOperation, retry, operation_generation, retry_at, pending_generation, pending_operation,
  SchedulerState, schedule_retry, invalidate, stop, Submission, returns, waits_for, worker_turn,
  Event, invalidated, stopping, step, run,
}
use last_audio_memory_buffer.Scheduler.Pending.{
  IsCurrent, stamped, schedule_retry_lem, invalidate_lem,
}
use last_audio_memory_buffer.Scheduler.Worker.{
  submit_pending_lem, worker_pending, early_retry, due_retry,
}
use last_audio_memory_buffer.Scheduler.Steps.{step-Steps}

-- Every operation of a list is of the generation `g` or a later one.
pub AllFrom : ℕ → List ScheduledOperation → Type 0
AllFrom g [] = Unit
AllFrom g (operation ∷ rest) = (g ≤ operation_generation operation) × AllFrom g rest

run_cons-AllFrom :
    (g : ℕ) (s : SchedulerState) (e : Event) (es : List Event)
    → g ≤ s.generation
    → IsCurrent s
    → AllFrom g (run (step s e).0 es).1
    → AllFrom g (run s (e ∷ es)).1
unfolding run AllFrom
run_cons-AllFrom g s e es le h rest =
    let st = step-Steps s e h in
    elim (Option-cases (step s e).1) [
      | inl n ↦ rw (run, n) rest
      | inr (operation, o) ↦
          let same = st.submits operation o in rw (run, o) (omega (arith, same, le), rest)
    ]

run-AllFrom :
    (g : ℕ) (s : SchedulerState) (es : List Event)
    → g ≤ s.generation
    → IsCurrent s
    → AllFrom g (run s es).1
unfolding run AllFrom
run-AllFrom g s [] le h = tt
run-AllFrom g s (e ∷ es) le h =
    let st = step-Steps s e h in
    let grows = st.generation-le in
    run_cons-AllFrom g s e es le h (run-AllFrom g (step s e).0 es (omega arith) st.current)

-- From a current state, the state after any events is current again: a stopped scheduler has
-- nothing pending, and what is pending has the state's generation.
pub run-IsCurrent : (s : SchedulerState) (es : List Event) → IsCurrent s → IsCurrent (run s es).0
unfolding run
run-IsCurrent s [] h = h
run-IsCurrent s (e ∷ es) h =
    let rest = run-IsCurrent (step s e).0 es (step-Steps s e h).current in
    elim (Option-cases (step s e).1) [
      | inl n ↦ rw (run, n) rest
      | inr (operation, o) ↦ rw (run, o) rest
    ]

-- From a current state, after `invalidate g`, whatever happens next, no operation of a generation
-- before `g` is submitted.
pub invalidate-run :
    (g : ℕ) (s : SchedulerState) (es : List Event)
    → IsCurrent s
    → AllFrom g (run (invalidate g s) es).1
unfolding step
invalidate-run g s es h =
    run-AllFrom g (invalidate g s) es le (step-Steps s (invalidated g) h).current
  where
    le : g ≤ (invalidate g s).generation
    le = elim (invalidate_lem g s) [
      | inl (lt, w) ↦ rw w (omega (arith, lt))
      | inr (_, w) ↦ rw w (omega arith)
    ]

stopped_run :
    (s : SchedulerState) (es : List Event)
    → s.stopped ≡ true
    → IsCurrent s
    → ((run s es).1 ≡ []) × ((run s es).0.stopped ≡ true)
unfolding run
stopped_run s [] st h = (refl, st)
stopped_run s (e ∷ es) st h =
    let a = step-Steps s e h in
    let b = a.stays_stopped st in
    let rest = stopped_run (step s e).0 es b.0 a.current in rw (run, b.1) rest

stopped_turn :
    (now : ℕ) (submit : ScheduledOperation → Submission) (s : SchedulerState)
    → s.stopped ≡ true
    → (worker_turn now submit s).turn ≡ returns
unfolding worker_turn
stopped_turn now submit s st = simp (worker_turn, st)

-- From a current state, after `stop`, whatever happens next, nothing is submitted, and the
-- worker's next turn returns.
pub stop-run :
    (s : SchedulerState) (es : List Event) (now : ℕ) (submit : ScheduledOperation → Submission)
    → IsCurrent s
    → ((run (stop s) es).1 ≡ []) × ((worker_turn now submit (run (stop s) es).0).turn ≡ returns)
unfolding step stop
stop-run s es now submit h =
    let r = stopped_run (stop s) es refl (step-Steps s stopping h).current in
    (r.0, stopped_turn now submit (run (stop s) es).0 r.1)

retry-turn :
    (generation due now : ℕ) (submit : ScheduledOperation → Submission) (t : SchedulerState)
    → t.stopped ≡ false
    → t.pending ≡ some (retry_at generation due)
    → generation ≡ t.generation
    → ((now < due)
        × (worker_turn now submit t
            ≡ record { state = t; submitted = none; turn = waits_for (due - now) }))
      ⊎ ((due ≤ now) × ((worker_turn now submit t).submitted ≡ some (retry generation)))
unfolding pending_generation pending_operation
retry-turn generation due now submit t st e g =
    let w = worker_pending now submit t (retry_at generation due) st e g in
    elim (lt-or-le now due) [
      | inl lt ↦ inl (lt, w ∙ rw (early_retry now generation due lt))
      | inr le ↦
          let v = w ∙ rw (due_retry now generation due le) in
          elim (submit_pending_lem submit (retry_at generation due) t) [
            | inl (_, u) ↦ inr (le, ap (λ x. x.submitted) (v ∙ u))
            | inr (_, u) ↦ inr (le, ap (λ x. x.submitted) (v ∙ u))
          ]
    ]

-- A retry that is accepted, as the scheduler is not stopped and has no later generation, is
-- submitted by a turn at its due time or later, and not by a turn before it, which changes nothing
-- and waits for the rest of the time.
pub schedule_retry-turn :
    (generation due now : ℕ) (submit : ScheduledOperation → Submission) (s : SchedulerState)
    → s.stopped ≡ false
    → s.generation ≤ generation
    → ((now < due)
        × (worker_turn now submit (schedule_retry generation due s) ≡ record {
          state = schedule_retry generation due s;
          submitted = none;
          turn = waits_for (due - now);
        }))
      ⊎ ((due ≤ now)
          × ((worker_turn now submit (schedule_retry generation due s)).submitted
              ≡ some (retry generation)))
schedule_retry-turn generation due now submit s st le = elim (schedule_retry_lem generation due s) [
  | inl (inl t, _) ↦ absurd (cc (t, st))
  | inl (inr lt, _) ↦ absurd (omega (arith, lt, le))
  | inr (_, _, w) ↦ rw w (
      retry-turn generation due now submit (stamped generation (retry_at generation due) s) st refl
        refl)
]
