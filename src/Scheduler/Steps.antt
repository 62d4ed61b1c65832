-- ===== src/Scheduler/Steps.antt =====
-- What one event keeps of the scheduler's state, and what it may submit.
use last_audio_memory_buffer.Base.{
  ℕ, subst, ◌≤◌, ◌≡◌, inl, inr, refl, sym, ap, ◌∙◌, true, false, Option, none, some, arith,
}
use last_audio_memory_buffer.Scheduler.{
  ScheduledOperation, operation_generation, PendingOperation, retry_at, immediate,
  pending_generation, pending_operation, SchedulerState, invalidate, notify_lane_available, stop,
  Submission, submit_pending, worker_turn, spawn, Event, scheduled, faulted, invalidated,
  lane_available, stopping, spawning, turned, step,
}
use last_audio_memory_buffer.Scheduler.Pending.{
  IsCurrent, stamped, stamped-IsCurrent, cleared-IsCurrent, kept-IsCurrent, schedule_retry_lem,
  notify_fault_lem, invalidate_lem,
}
use last_audio_memory_buffer.Scheduler.Worker.{submit_pending_lem, worker_turn_lem}

-- What a step of the scheduler keeps and what it may submit.
pub record Steps (s t : SchedulerState) (o : Option ScheduledOperation) : Type 0 where
  pub current : IsCurrent t
  pub generation-le : s.generation ≤ t.generation
  pub stays_stopped : s.stopped ≡ true → (t.stopped ≡ true) × (o ≡ none)
  pub submits :
      (operation : ScheduledOperation)
      → o ≡ some operation
      → operation_generation operation ≡ s.generation

-- A step that submits nothing and keeps the three fields that matter.
kept-Steps :
    (s t : SchedulerState)
    → t.stopped ≡ s.stopped
    → t.pending ≡ s.pending
    → t.generation ≡ s.generation
    → IsCurrent s
    → Steps s t none
kept-Steps s t e p g h = record {
  current = kept-IsCurrent s t e p g h;
  generation-le = omega (arith, g);
  stays_stopped = λ st. (e ∙ st, refl);
  submits = λ operation q. absurd cc;
}

stamped-Steps :
    (s : SchedulerState) (generation : ℕ) (p : PendingOperation)
    → s.stopped ≡ false
    → s.generation ≤ generation
    → pending_generation p ≡ generation
    → Steps s (stamped generation p s) none
stamped-Steps s generation p f le e = record {
  current = stamped-IsCurrent generation p s f e;
  generation-le = le;
  stays_stopped = λ st. absurd cc;
  submits = λ operation q. absurd cc;
}

cleared-Steps :
    (s t : SchedulerState)
    → t.pending ≡ none
    → s.generation ≤ t.generation
    → (s.stopped ≡ true → t.stopped ≡ true)
    → Steps s t none
cleared-Steps s t p g st = record {
  current = cleared-IsCurrent t p;
  generation-le = g;
  stays_stopped = λ h. (st h, refl);
  submits = λ operation q. absurd cc;
}

pending-same :
    (p : PendingOperation) → operation_generation (pending_operation p) ≡ pending_generation p
unfolding operation_generation pending_operation pending_generation
pending-same (retry_at generation due) = refl
pending-same (immediate operation) = refl

submit-Steps :
    (submit : ScheduledOperation → Submission) (s : SchedulerState) (p : PendingOperation)
    → s.pending ≡ some p
    → s.stopped ≡ false
    → IsCurrent s
    → Steps s (submit_pending submit p s).state (submit_pending submit p s).submitted
submit-Steps submit s p e f h = elim (submit_pending_lem submit p s) [
  | inl (_, w) ↦ subst (λ t. Steps s t.state t.submitted) (sym w) (sent s h refl)
  | inr (_, w) ↦
      subst (λ t. Steps s t.state t.submitted) (sym w)
        (sent (record s { pending = none }) (cleared-IsCurrent (record s { pending = none }) refl)
          refl)
]
  where
    sent :
        (t : SchedulerState)
        → IsCurrent t
        → t.generation ≡ s.generation
        → Steps s t (some (pending_operation p))
    sent t c g = record {
      current = c;
      generation-le = omega (arith, g);
      stays_stopped = λ st. absurd (cc (st, f));
      submits = λ operation q.
          let i : pending_operation p ≡ operation = cc q in
          ap operation_generation (sym i) ∙ pending-same p ∙ h.generations p e;
    }

turn-Steps :
    (now : ℕ) (submit : ScheduledOperation → Submission) (s : SchedulerState)
    → IsCurrent s
    → Steps s (worker_turn now submit s).state (worker_turn now submit s).submitted
turn-Steps now submit s h = elim (worker_turn_lem now submit s h) [
  | inl (_, w) ↦ subst (λ t. Steps s t.state t.submitted) (sym w) (kept-Steps s s refl refl refl h)
  | inr (inl (_, _, w)) ↦
      subst (λ t. Steps s t.state t.submitted) (sym w) (kept-Steps s s refl refl refl h)
  | inr (inr (inl (_, _, _, _, w))) ↦
      subst (λ t. Steps s t.state t.submitted) (sym w) (kept-Steps s s refl refl refl h)
  | inr (inr (inr (p, e, _, f, w))) ↦
      subst (λ t. Steps s t.state t.submitted) (sym w) (submit-Steps submit s p e f h)
]

pub step-Steps : (s : SchedulerState) (e : Event) → IsCurrent s → Steps s (step s e).0 (step s e).1
unfolding step invalidate notify_lane_available stop spawn pending_generation operation_generation
step-Steps s (scheduled generation due) h = elim (schedule_retry_lem generation due s) [
  | inl (_, w) ↦ subst (λ t. Steps s t none) (sym w) (kept-Steps s s refl refl refl h)
  | inr (f, le, w) ↦ subst (λ t. Steps s t none) (sym w) (stamped-Steps s generation _ f le refl)
]
step-Steps s (faulted generation attempt_id fault) h =
    elim (notify_fault_lem generation attempt_id fault s) [
      | inl (_, w) ↦ subst (λ t. Steps s t none) (sym w) (kept-Steps s s refl refl refl h)
      | inr (f, le, w) ↦
          subst (λ t. Steps s t none) (sym w) (stamped-Steps s generation _ f le refl)
    ]
step-Steps s (invalidated generation) h = elim (invalidate_lem generation s) [
  | inl (_, w) ↦ subst (λ t. Steps s t none) (sym w) (kept-Steps s s refl refl refl h)
  | inr (le, w) ↦ subst (λ t. Steps s t none) (sym w) (cleared-Steps s _ refl le (λ st. st))
]
step-Steps s lane_available h = kept-Steps s _ refl refl refl h
step-Steps s stopping h = cleared-Steps s (stop s) refl (omega arith) (λ _. refl)
step-Steps s (spawning spawned) h =
    kept-Steps s (spawn spawned s).0 (ground arith) (ground arith) (ground arith) h
step-Steps s (turned now submit) h = turn-Steps now submit s h
