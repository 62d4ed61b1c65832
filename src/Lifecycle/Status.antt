-- ===== src/Lifecycle/Status.antt =====
-- What the fields of a `LifecycleState` say together, over every history.
use last_audio_memory_buffer.Base.{
  ℕ, ◌+◌, ◌≤◌, ◌≡◌, ◌⊎◌, inl, inr, refl, Option, some, none, String, arith, u64_max, u32_max, List,
  [], ◌∷◌,
}
use last_audio_memory_buffer.Lifecycle.{
  LifecycleState, ready, degraded, stopping, faulted, permanent, transient, unset, manual,
  bounded_backoff, mark_transient, mark_starting, mark_permanent, mark_running, mark_stopped,
  mark_stopping, begin_operation, ready_stopped, report_capture_fault, publish_candidate, Event,
  start, fail_permanently, fail_transiently, run, halt, shut_down, begin, report, publish, step,
  steps,
}
use last_audio_memory_buffer.Lifecycle.Retry.{transient_lem}
use last_audio_memory_buffer.Lifecycle.Begin.{begin_lem, publication_lem}

-- No error and no retry are reported.
record IsQuiet (s : LifecycleState) : Type 0 where
  not_degraded : (s.daemon_state ≡ ready) ⊎ (s.daemon_state ≡ stopping)
  no_class : s.error_class ≡ none
  no_error : s.last_error ≡ none
  no_policy : s.retry_policy ≡ unset
  no_attempt : s.retry_attempt ≡ 0
  no_due : s.next_retry_at ≡ none

-- A permanent error waits for the operator.
record IsFaulted (s : LifecycleState) : Type 0 where
  is_degraded : s.daemon_state ≡ degraded
  is_faulted : s.capture_state ≡ faulted
  class : s.error_class ≡ some permanent
  error : (e : String) × (s.last_error ≡ some e)
  policy : s.retry_policy ≡ manual
  no_attempt : s.retry_attempt ≡ 0
  no_due : s.next_retry_at ≡ none

-- A transient error waits for its next attempt.
record IsRetrying (s : LifecycleState) : Type 0 where
  is_degraded : s.daemon_state ≡ degraded
  class : s.error_class ≡ some transient
  error : (e : String) × (s.last_error ≡ some e)
  policy : s.retry_policy ≡ bounded_backoff
  attempt_pos : 1 ≤ s.retry_attempt
  attempt-le : s.retry_attempt ≤ u32_max
  due : (at : ℕ) × (s.next_retry_at ≡ some at) × (at ≤ u64_max)

-- A failed capture is reported with no retry.
record IsReported (s : LifecycleState) : Type 0 where
  is_degraded : s.daemon_state ≡ degraded
  is_faulted : s.capture_state ≡ faulted
  class : s.error_class ≡ some transient
  error : (e : String) × (s.last_error ≡ some e)
  policy : s.retry_policy ≡ manual
  no_attempt : s.retry_attempt ≡ 0
  no_due : s.next_retry_at ≡ none

pub record IsConsistent (s : LifecycleState) : Type 0 where
  shape : IsQuiet s ⊎ IsFaulted s ⊎ IsReported s ⊎ IsRetrying s
  generation-le : s.generation ≤ u64_max

pub fresh-IsConsistent : (profile : Option String) → IsConsistent (ready_stopped profile)
unfolding ready_stopped
fresh-IsConsistent profile = record {
  shape = inl (record {
    not_degraded = inl refl;
    no_class = refl;
    no_error = refl;
    no_policy = refl;
    no_attempt = refl;
    no_due = refl;
  });
  generation-le = omega arith;
}

-- The calls that clear the error leave a quiet state.
quiet_step :
    (s t : LifecycleState)
    → (t.daemon_state ≡ ready) ⊎ (t.daemon_state ≡ stopping)
    → t.error_class ≡ none
    → t.last_error ≡ none
    → t.retry_policy ≡ unset
    → t.retry_attempt ≡ 0
    → t.next_retry_at ≡ none
    → t.generation ≡ s.generation
    → IsConsistent s
    → IsConsistent t
quiet_step s t d c e p a n g h = record {
  shape = inl (record {
    not_degraded = d;
    no_class = c;
    no_error = e;
    no_policy = p;
    no_attempt = a;
    no_due = n;
  });
  generation-le = omega (arith, h.generation-le);
}

-- The generation is no part of what the other fields say.
same_shape :
    (s : LifecycleState)
    → (g : ℕ) → IsQuiet s ⊎ IsFaulted s ⊎ IsReported s ⊎ IsRetrying s
    → IsQuiet (record s { generation = g })
      ⊎ IsFaulted (record s { generation = g })
      ⊎ IsReported (record s { generation = g })
      ⊎ IsRetrying (record s { generation = g })
same_shape s g (inl q) = inl (record {
  not_degraded = q.not_degraded;
  no_class = q.no_class;
  no_error = q.no_error;
  no_policy = q.no_policy;
  no_attempt = q.no_attempt;
  no_due = q.no_due;
})
same_shape s g (inr (inl f)) = inr (
    inl (record {
      is_degraded = f.is_degraded;
      is_faulted = f.is_faulted;
      class = f.class;
      error = f.error;
      policy = f.policy;
      no_attempt = f.no_attempt;
      no_due = f.no_due;
    }))
same_shape s g (inr (inr (inl p))) = inr (
    inr (
      inl (record {
        is_degraded = p.is_degraded;
        is_faulted = p.is_faulted;
        class = p.class;
        error = p.error;
        policy = p.policy;
        no_attempt = p.no_attempt;
        no_due = p.no_due;
      })))
same_shape s g (inr (inr (inr r))) = inr (
    inr (
      inr (record {
        is_degraded = r.is_degraded;
        class = r.class;
        error = r.error;
        policy = r.policy;
        attempt_pos = r.attempt_pos;
        attempt-le = r.attempt-le;
        due = r.due;
      })))

begin-IsConsistent : (s : LifecycleState) → IsConsistent s → IsConsistent (begin_operation s).0
begin-IsConsistent s h = elim (begin_lem s) [
  | inl (_, e) ↦ rw e h
  | inr (inl (_, _, e)) ↦ rw e h
  | inr (inr (_, lt, e)) ↦ rw e (record {
    shape = same_shape s (s.generation + 1) h.shape;
    generation-le = omega (arith, lt);
  })
]

publish-IsConsistent :
    (operation_generation : Option ℕ) (candidate s : LifecycleState)
    → IsConsistent candidate
    → IsConsistent s
    → IsConsistent (publish_candidate operation_generation candidate s)
publish-IsConsistent operation_generation candidate s c h =
    elim (publication_lem operation_generation candidate s) [
      | inl e ↦ rw e h
      | inr (g, _, inl same, e) ↦ rw e (record {
        shape = same_shape candidate g c.shape;
        generation-le = omega (arith, same, h.generation-le);
      })
      | inr (g, _, inr le, e) ↦
          rw e (record { shape = same_shape candidate g c.shape; generation-le = le })
    ]

-- The instants that are read are readings of a `u64` clock, and a candidate is consistent.
abbrev pub InRange : Event → Type 0
InRange (fail_transiently capture error now) = now ≤ u64_max
InRange (publish operation_generation candidate) = IsConsistent candidate
InRange _ = Unit

pub step-IsConsistent :
    (s : LifecycleState) (e : Event) → InRange e → IsConsistent s → IsConsistent (step s e)
unfolding step mark_starting mark_permanent mark_transient mark_running mark_stopped mark_stopping
    begin_operation report_capture_fault
step-IsConsistent s (start profile) r h = quiet_step s _ (inl refl) refl refl refl refl refl refl h
step-IsConsistent s (run profile target) r h =
    quiet_step s _ (inl refl) refl refl refl refl refl refl h
step-IsConsistent s (halt profile) r h = quiet_step s _ (inl refl) refl refl refl refl refl refl h
step-IsConsistent s shut_down r h = quiet_step s _ (inr refl) refl refl refl refl refl refl h
step-IsConsistent s begin r h = begin-IsConsistent s h
step-IsConsistent s (publish operation_generation candidate) r h =
    publish-IsConsistent operation_generation candidate s r h
step-IsConsistent s (report error) r h = record {
  shape = inr (
      inr (
        inl (record {
          is_degraded = refl;
          is_faulted = refl;
          class = refl;
          error = (error, refl);
          policy = refl;
          no_attempt = refl;
          no_due = refl;
        })));
  generation-le = h.generation-le;
}
step-IsConsistent s (fail_permanently error) r h = record {
  shape = inr (
      inl (record {
        is_degraded = refl;
        is_faulted = refl;
        class = refl;
        error = (error, refl);
        policy = refl;
        no_attempt = refl;
        no_due = refl;
      }));
  generation-le = h.generation-le;
}
step-IsConsistent s (fail_transiently capture error now) r h =
    let t = transient_lem capture error now s r in
    record {
      shape = inr (
          inr (
            inr (record {
              is_degraded = refl;
              class = refl;
              error = (error, refl);
              policy = refl;
              attempt_pos = omega (arith, t.0);
              attempt-le = omega (arith, t.0);
              due = (t.1.0, t.1.1, t.1.4);
            })));
      generation-le = h.generation-le;
    }

-- All that happens in a history is in range.
abbrev pub AllInRange : List Event → Type 0
AllInRange [] = Unit
AllInRange (e ∷ es) = InRange e × AllInRange es

-- Whatever a consistent state goes through (the calls of its methods, the report of a failed
-- capture, the publication of a consistent candidate), with instants of a `u64` clock, its status
-- fields stay consistent, as those of a fresh state are. One of four holds: no error and no retry,
-- and the daemon is not degraded; a permanent error that waits for the operator, without a retry;
-- the report of a failed capture, a transient error that waits for the operator, without a retry;
-- or a transient error with an attempt count from 1 up and a due time. The generation, the count
-- and the due time stay in their machine widths.
pub steps-IsConsistent :
    (s : LifecycleState) (es : List Event)
    → AllInRange es
    → IsConsistent s
    → IsConsistent (steps s es)
unfolding steps
steps-IsConsistent s [] r h = h
steps-IsConsistent s (e ∷ es) r h =
    steps-IsConsistent (step s e) es r.1 (step-IsConsistent s e r.0 h)
