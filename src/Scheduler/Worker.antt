-- ===== src/Scheduler/Worker.antt =====
-- What a turn of the worker's loop does, on every branch.
use last_audio_memory_buffer.Base.{
  ℕ, ==_self, ◌≢◌, Option-cases, ◌-◌, ◌≤◌, ◌<◌, ◌≡◌, ◌⊎◌, inl, inr, refl, ◌∙◌, true, false,
  Bool-cases, lt-or-le, none, some, arith,
}
use last_audio_memory_buffer.Scheduler.{
  ScheduledOperation, PendingOperation, retry_at, immediate, pending_generation, pending_operation,
  SchedulerState, Submission, accepted, closed, full, returns, waits, continues, waits_for,
  submit_pending, too_early, worker_turn,
}
use last_audio_memory_buffer.Scheduler.Pending.{IsCurrent}

submission_cases : (r : Submission) → (r ≡ full) ⊎ (r ≢ full)
submission_cases accepted = inr cc
submission_cases closed = inr cc
submission_cases full = inl refl

pub submit_full :
    (submit : ScheduledOperation → Submission) (p : PendingOperation) (s : SchedulerState)
    → submit (pending_operation p) ≡ full
    → submit_pending submit p s
      ≡ record { state = s; submitted = some (pending_operation p); turn = waits }
unfolding submit_pending
submit_full submit p s e = simp (submit_pending, e, ==_self s.wake_epoch)

pub submit_answered :
    (submit : ScheduledOperation → Submission) (p : PendingOperation) (s : SchedulerState)
    → (r : Submission) → submit (pending_operation p) ≡ r
    → r ≢ full
    → submit_pending submit p s ≡ record {
      state = record s { pending = none };
      submitted = some (pending_operation p);
      turn = continues;
    }
unfolding submit_pending
submit_answered submit p s accepted e n = simp (submit_pending, e)
submit_answered submit p s closed e n = simp (submit_pending, e)
submit_answered submit p s full e n = absurd (n refl)

-- The operation is submitted. A full queue keeps it pending, and the worker waits; any other answer
-- removes it.
pub submit_pending_lem :
    (submit : ScheduledOperation → Submission) (p : PendingOperation) (s : SchedulerState)
    → ((submit (pending_operation p) ≡ full)
        × (submit_pending submit p s
            ≡ record { state = s; submitted = some (pending_operation p); turn = waits }))
      ⊎ ((submit (pending_operation p) ≢ full)
          × (submit_pending submit p s ≡ record {
            state = record s { pending = none };
            submitted = some (pending_operation p);
            turn = continues;
          }))
submit_pending_lem submit p s = elim (submission_cases (submit (pending_operation p))) [
  | inl e ↦ inl (e, submit_full submit p s e)
  | inr n ↦ inr (n, submit_answered submit p s (submit (pending_operation p)) refl n)
]

-- A turn with a pending operation of the state's generation.
pub worker_pending :
    (now : ℕ) (submit : ScheduledOperation → Submission) (s : SchedulerState) (p : PendingOperation)
    → s.stopped ≡ false
    → s.pending ≡ some p
    → pending_generation p ≡ s.generation
    → worker_turn now submit s ≡ elim (too_early now p) [
      | some wait ↦ record { state = s; submitted = none; turn = waits_for wait }
      | none ↦ submit_pending submit p s
    ]
unfolding worker_turn
worker_pending now submit s p f e g = simp (worker_turn, f, e, g, ==_self s.generation)

pub early_retry :
    (now generation due : ℕ)
    → now < due
    → too_early now (retry_at generation due) ≡ some (due - now)
unfolding too_early
early_retry now generation due h = ground arith

pub due_retry :
    (now generation due : ℕ) → due ≤ now → too_early now (retry_at generation due) ≡ none
unfolding too_early
due_retry now generation due h = ground arith

pending_lem :
    (now : ℕ) (submit : ScheduledOperation → Submission) (s : SchedulerState) (p : PendingOperation)
    → s.stopped ≡ false
    → s.pending ≡ some p
    → pending_generation p ≡ s.generation
    → ((generation due : ℕ) × (s.pending ≡ some (retry_at generation due))
        × (now < due)
        × (worker_turn now submit s
            ≡ record { state = s; submitted = none; turn = waits_for (due - now) }))
      ⊎ ((q : PendingOperation) × (s.pending ≡ some q)
          × ((generation due : ℕ) → q ≡ retry_at generation due → due ≤ now)
          × (s.stopped ≡ false)
          × (worker_turn now submit s ≡ submit_pending submit q s))
unfolding too_early
pending_lem now submit s (immediate operation) f e g = inr (
  immediate operation,
  e,
  (λ generation due h. absurd cc),
  f,
  worker_pending now submit s (immediate operation) f e g,
)
pending_lem now submit s (retry_at generation due) f e g =
    let w = worker_pending now submit s (retry_at generation due) f e g in
    elim (lt-or-le now due) [
      | inl lt ↦ inl (generation, due, e, lt, w ∙ rw (early_retry now generation due lt))
      | inr le ↦ inr (
        retry_at generation due,
        e,
        (λ generation' due' h. let i : due ≡ due' = cc in omega (arith, i, le)),
        f,
        w ∙ rw (due_retry now generation due le),
      )
    ]

-- What a turn does, by the state, which is current: a stopped scheduler's worker returns; with
-- nothing pending it waits; a retry that is not due is waited for, as long as it takes; and any
-- other operation is submitted.
pub worker_turn_lem :
    (now : ℕ) (submit : ScheduledOperation → Submission) (s : SchedulerState)
    → IsCurrent s
    → ((s.stopped ≡ true)
        × (worker_turn now submit s ≡ record { state = s; submitted = none; turn = returns }))
      ⊎ ((s.stopped ≡ false)
          × (s.pending ≡ none)
          × (worker_turn now submit s ≡ record { state = s; submitted = none; turn = waits }))
      ⊎ ((generation due : ℕ) × (s.pending ≡ some (retry_at generation due))
          × (now < due)
          × (worker_turn now submit s
              ≡ record { state = s; submitted = none; turn = waits_for (due - now) }))
      ⊎ ((p : PendingOperation) × (s.pending ≡ some p)
          × ((generation due : ℕ) → p ≡ retry_at generation due → due ≤ now)
          × (s.stopped ≡ false)
          × (worker_turn now submit s ≡ submit_pending submit p s))
unfolding worker_turn
worker_turn_lem now submit s h = elim (Bool-cases s.stopped) [
  | inl t ↦ inl (t, simp (worker_turn, t))
  | inr f ↦ elim (Option-cases s.pending) [
    | inl e ↦ inr (inl (f, e, simp (worker_turn, f, e)))
    | inr (p, e) ↦ inr (inr (pending_lem now submit s p f e (h.generations p e)))
  ]
]
