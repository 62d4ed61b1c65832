-- ===== src/Scheduler/Blocked.antt =====
-- A pending operation while the retry is not due or the lane is full, and when there is room.
use last_audio_memory_buffer.Base.{
  ℕ, ◌-◌, ◌≤◌, ◌<◌, ◌≡◌, ◌≢◌, ◌⊎◌, ◌∙◌, inl, inr, refl, sym, ap, false, lt-or-le, List, [], ◌∷◌,
  none, some, arith, subst,
}
use last_audio_memory_buffer.Scheduler.{
  ScheduledOperation, PendingOperation, retry_at, immediate, pending_generation, pending_operation,
  SchedulerState, notify_lane_available, spawn, Submission, full, continues, waits_for,
  submit_pending, too_early, worker_turn, Event, scheduled, faulted, invalidated, stopping,
  lane_available, spawning, turned, step, run,
}
use last_audio_memory_buffer.Scheduler.Worker.{
  submit_full, submit_answered, worker_pending, early_retry, due_retry,
}

abbrev pub IsEarly : ℕ → PendingOperation → Type 0
IsEarly now (retry_at generation due) = now < due
IsEarly now (immediate operation) = ⊥

abbrev pub IsDue : ℕ → PendingOperation → Type 0
IsDue now (retry_at generation due) = due ≤ now
IsDue now (immediate operation) = Unit

-- What leaves the operation `p` where it is: a notification, the creation of the thread, or a turn
-- that is too early or finds the lane full.
abbrev pub IsBlocked : PendingOperation → Event → Type 0
IsBlocked p (turned now submit) = IsEarly now p ⊎ (submit (pending_operation p) ≡ full)
IsBlocked p lane_available = Unit
IsBlocked p (spawning spawned) = Unit
IsBlocked p _ = ⊥

abbrev pub AllBlocked : PendingOperation → List Event → Type 0
AllBlocked p [] = Unit
AllBlocked p (e ∷ es) = IsBlocked p e × AllBlocked p es

-- Nothing but `operation` is in the list.
abbrev pub AllSame : ScheduledOperation → List ScheduledOperation → Type 0
AllSame operation [] = Unit
AllSame operation (other ∷ rest) = (other ≡ operation) × AllSame operation rest

-- The scheduler runs and has `p` pending, of its own generation.
pub record IsPending (p : PendingOperation) (s : SchedulerState) : Type 0 where
  pub running : s.stopped ≡ false
  pub pending : s.pending ≡ some p
  pub current : pending_generation p ≡ s.generation

due_turn :
    (now : ℕ) (submit : ScheduledOperation → Submission) (p : PendingOperation) (s : SchedulerState)
    → IsPending p s
    → IsDue now p
    → worker_turn now submit s ≡ submit_pending submit p s
unfolding too_early
due_turn now submit (immediate operation) s v d =
    worker_pending now submit s (immediate operation) v.running v.pending v.current
due_turn now submit (retry_at generation due) s v d =
    worker_pending now submit s (retry_at generation due) v.running v.pending v.current
    ∙ rw (due_retry now generation due d) refl

early_turn :
    (now : ℕ) (submit : ScheduledOperation → Submission) (p : PendingOperation) (s : SchedulerState)
    → IsPending p s
    → IsEarly now p
    → ((worker_turn now submit s).state ≡ s) × ((worker_turn now submit s).submitted ≡ none)
early_turn now submit (immediate operation) s v d = absurd d
early_turn now submit (retry_at generation due) s v d =
    let e : worker_turn now submit s
        ≡ record { state = s; submitted = none; turn = waits_for (due - now) } =
      worker_pending now submit s (retry_at generation due) v.running v.pending v.current
      ∙ rw (early_retry now generation due d) refl in
    (ap (λ t. t.state) e, ap (λ t. t.submitted) e)

time_cases : (now : ℕ) (p : PendingOperation) → IsEarly now p ⊎ IsDue now p
time_cases now (immediate operation) = inr tt
time_cases now (retry_at generation due) = lt-or-le now due

-- What a blocked turn submits is the pending operation, which stays pending.
blocked_turn :
    (now : ℕ) (submit : ScheduledOperation → Submission) (p : PendingOperation) (s : SchedulerState)
    → IsPending p s
    → IsEarly now p ⊎ (submit (pending_operation p) ≡ full)
    → ((worker_turn now submit s).state ≡ s)
      × (((worker_turn now submit s).submitted ≡ none)
          ⊎ ((worker_turn now submit s).submitted ≡ some (pending_operation p)))
blocked_turn now submit p s v (inl early) =
    let (same, idle) = early_turn now submit p s v early in (same, inl idle)
blocked_turn now submit p s v (inr f) = elim (time_cases now p) [
  | inl early ↦ let (same, idle) = early_turn now submit p s v early in (same, inl idle)
  | inr due ↦
      let e = due_turn now submit p s v due ∙ submit_full submit p s f in
      (ap (λ t. t.state) e, inr (ap (λ t. t.submitted) e))
]

blocked_step :
    (p : PendingOperation) (s : SchedulerState) (e : Event)
    → IsPending p s
    → IsBlocked p e
    → IsPending p (step s e).0
      × (((step s e).1 ≡ none) ⊎ ((step s e).1 ≡ some (pending_operation p)))
unfolding step notify_lane_available spawn
blocked_step p s (turned now submit) v b =
    let (same, out) = blocked_turn now submit p s v b in (subst (IsPending p) (sym same) v, out)
blocked_step p s lane_available v b =
    (record { running = v.running; pending = v.pending; current = v.current }, inl refl)
blocked_step p s (scheduled generation due) v b = absurd b
blocked_step p s (faulted generation attempt_id fault) v b = absurd b
blocked_step p s (invalidated generation) v b = absurd b
blocked_step p s stopping v b = absurd b
blocked_step p s (spawning spawned) v b = (
  record {
    running = ground (arith, v.running);
    pending = ground (arith, v.pending);
    current = ground (arith, v.current);
  },
  inl refl,
)

blocked_run :
    (p : PendingOperation) (s : SchedulerState) (es : List Event)
    → IsPending p s
    → AllBlocked p es
    → IsPending p (run s es).0 × AllSame (pending_operation p) (run s es).1
unfolding run
blocked_run p s [] v b = (v, tt)
blocked_run p s (e ∷ es) v b =
    let (kept, out) = blocked_step p s e v b.0 in
    let (last, same) = blocked_run p (step s e).0 es kept b.1 in
    elim out [ inl n ↦ rw (run, n) (last, same) | inr o ↦ rw (run, o) (last, (refl, same)) ]

-- A pending operation of the state's generation, in a scheduler that runs, survives every sequence
-- of notifications, of creations of the thread and of turns that are too early or find the lane
-- full: nothing else is submitted meanwhile, and the next turn at its due time submits it and, if
-- the lane's answer is not that it is full, removes it and continues.
pub blocked-turn :
    (p : PendingOperation) (s : SchedulerState) (es : List Event) (now : ℕ)
    → (submit : ScheduledOperation → Submission) → IsPending p s
    → AllBlocked p es
    → IsDue now p
    → submit (pending_operation p) ≢ full
    → ((run s es).0.pending ≡ some p)
      × AllSame (pending_operation p) (run s es).1
      × (worker_turn now submit (run s es).0 ≡ record {
        state = record (run s es).0 { pending = none };
        submitted = some (pending_operation p);
        turn = continues;
      })
blocked-turn p s es now submit v b due room =
    let (last, same) = blocked_run p s es v b in
    (
      last.pending,
      same,
      due_turn now submit p (run s es).0 last due
          ∙ submit_answered submit p (run s es).0 (submit (pending_operation p)) refl room,
    )
