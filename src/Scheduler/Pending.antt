-- ===== src/Scheduler/Pending.antt =====
-- What holds of a scheduler's state, and what a turn of the worker submits.
use last_audio_memory_buffer.Base.{
  ℕ, ◌≤◌, ◌<◌, ◌≡◌, ◌⊎◌, inl, inr, refl, sym, ap, ◌∙◌, add_u64, true, false, Bool-cases, lt-or-le,
  none, some, arith,
}
use last_audio_memory_buffer.Scheduler.{
  RuntimeCaptureFault, runtime_fault, PendingOperation, retry_at, immediate, pending_generation,
  SchedulerState, initial, schedule_retry, notify_fault, invalidate,
}

-- A stopped scheduler has nothing pending, and what is pending has the state's generation.
pub record IsCurrent (s : SchedulerState) : Type 0 where
  pub stopped_empty : s.stopped ≡ true → s.pending ≡ none
  pub generations :
      (p : PendingOperation) → s.pending ≡ some p → pending_generation p ≡ s.generation

pub initial-IsCurrent : IsCurrent initial
unfolding initial
initial-IsCurrent = record { stopped_empty = λ _. refl; generations = λ p h. absurd cc }

-- A call that is accepted: it is no older than the state, and it replaces what was pending.
abbrev pub stamped : ℕ → PendingOperation → SchedulerState → SchedulerState
stamped generation pending s = record s {
  generation = generation;
  pending = some pending;
  wake_epoch = add_u64 s.wake_epoch 1;
}

pub stamped-IsCurrent :
    (generation : ℕ) (pending : PendingOperation) (s : SchedulerState)
    → s.stopped ≡ false
    → pending_generation pending ≡ generation
    → IsCurrent (stamped generation pending s)
stamped-IsCurrent generation pending s o e = record {
  stopped_empty = λ st. absurd cc;
  generations = λ p q. let i : pending ≡ p = cc in ap pending_generation (sym i) ∙ e;
}

pub cleared-IsCurrent : (s : SchedulerState) → s.pending ≡ none → IsCurrent s
cleared-IsCurrent s h = record { stopped_empty = λ _. h; generations = λ p q. absurd cc }

pub kept-IsCurrent :
    (s t : SchedulerState)
    → t.stopped ≡ s.stopped
    → t.pending ≡ s.pending
    → t.generation ≡ s.generation
    → IsCurrent s
    → IsCurrent t
kept-IsCurrent s t e p g h = record {
  stopped_empty = λ st. p ∙ h.stopped_empty (sym e ∙ st);
  generations = λ q r. h.generations q (sym p ∙ r) ∙ sym g;
}

-- A retry or a fault is dropped after a stop or when its generation is too old.
pub schedule_retry_lem :
    (generation due : ℕ) (s : SchedulerState)
    → ((s.stopped ≡ true) ⊎ (generation < s.generation)) × (schedule_retry generation due s ≡ s)
      ⊎ (s.stopped ≡ false)
        × (s.generation ≤ generation)
        × (schedule_retry generation due s ≡ stamped generation (retry_at generation due) s)
unfolding schedule_retry
schedule_retry_lem generation due s = elim (Bool-cases s.stopped) [
  | inl t ↦ inl (inl t, rw t)
  | inr f ↦ elim (lt-or-le generation s.generation) [
    | inl lt ↦ inl (inr lt, ground arith)
    | inr le ↦ inr (f, le, ground arith)
  ]
]

pub notify_fault_lem :
    (generation attempt_id : ℕ) (fault : RuntimeCaptureFault) (s : SchedulerState)
    → ((s.stopped ≡ true) ⊎ (generation < s.generation))
        × (notify_fault generation attempt_id fault s ≡ s)
      ⊎ (s.stopped ≡ false)
        × (s.generation ≤ generation)
        × (notify_fault generation attempt_id fault s
            ≡ stamped generation (immediate (runtime_fault generation attempt_id fault)) s)
unfolding notify_fault
notify_fault_lem generation attempt_id fault s = elim (Bool-cases s.stopped) [
  | inl t ↦ inl (inl t, ground arith)
  | inr f ↦ elim (lt-or-le generation s.generation) [
    | inl lt ↦ inl (inr lt, ground arith)
    | inr le ↦ inr (f, le, ground arith)
  ]
]

pub invalidate_lem :
    (generation : ℕ) (s : SchedulerState)
    → ((generation < s.generation) × (invalidate generation s ≡ s))
      ⊎ ((s.generation ≤ generation)
          × (invalidate generation s ≡ record s {
            generation = generation;
            pending = none;
            wake_epoch = add_u64 s.wake_epoch 1;
          }))
unfolding invalidate
invalidate_lem generation s = elim (lt-or-le generation s.generation) [
  | inl lt ↦ inl (lt, ground arith)
  | inr le ↦ inr (le, ground arith)
]
