-- ===== src/Lifecycle/Begin.antt =====
-- `begin_operation`: when it is refused, and that generations only grow.
use last_audio_memory_buffer.Base.{
  ℕ, ap, sym, ◌∙◌, checked_add_lem, checked_add-none, ◌+◌, lt-or-le, ◌≢◌, ◌<◌, ◌≤◌, ◌≡◌, ◌⊎◌, inl,
  inr, refl, Option, some, none, ◌==◌, Bool-cases, arith, u64_max, checked_add, List, [], ◌∷◌,
}
use last_audio_memory_buffer.Base.Error.{ok, err, control, control_invariant}
use last_audio_memory_buffer.Lifecycle.{
  LifecycleState, DaemonState, ready, degraded, stopping, mark_transient, mark_starting,
  mark_permanent, mark_running, mark_stopped, mark_stopping, begin_operation,
  publication_generation, report_capture_fault, install, publish_candidate, Event, start,
  fail_permanently, fail_transiently, run, halt, shut_down, begin, report, publish, step, steps,
}

-- A daemon that is not stopping begins an operation with the next generation, unless there is none.
begin_ready :
    (s : LifecycleState)
    → (d : DaemonState) → s.daemon_state ≡ d
    → d ≢ stopping
    → begin_operation s ≡ elim (checked_add s.generation 1) [
      | none ↦ (s, err (control_invariant "operation generation overflow"))
      | some next ↦ (record s { generation = next }, ok next)
    ]
unfolding begin_operation
begin_ready s ready e n = rw (begin_operation, e)
begin_ready s degraded e n = rw (begin_operation, e)
begin_ready s stopping e n = absurd (n refl)

begin_stopping :
    (s : LifecycleState)
    → s.daemon_state ≡ stopping
    → begin_operation s ≡ (s, err (control "daemon is stopping"))
unfolding begin_operation
begin_stopping s e = simp (begin_operation, e)

daemon_cases : (d : DaemonState) → (d ≡ stopping) ⊎ (d ≢ stopping)
daemon_cases ready = inr (cc)
daemon_cases degraded = inr (cc)
daemon_cases stopping = inl refl

-- `begin_operation` is refused, and changes nothing, when the daemon is stopping or the generation
-- would overflow; otherwise it returns the next generation, which becomes the state's.
pub begin_lem :
    (s : LifecycleState)
    → ((s.daemon_state ≡ stopping) × (begin_operation s ≡ (s, err (control "daemon is stopping"))))
      ⊎ ((s.daemon_state ≢ stopping)
          × (u64_max ≤ s.generation)
          × (begin_operation s ≡ (s, err (control_invariant "operation generation overflow"))))
      ⊎ ((s.daemon_state ≢ stopping)
          × (s.generation < u64_max)
          × (begin_operation s
              ≡ (record s { generation = s.generation + 1 }, ok (s.generation + 1))))
begin_lem s = elim (daemon_cases s.daemon_state) [
  | inl e ↦ inl (e, begin_stopping s e)
  | inr n ↦ elim (lt-or-le s.generation u64_max) [
    | inl lt ↦ inr (
        inr (
          n,
          lt,
          begin_ready s s.daemon_state refl n ∙ rw (checked_add_lem s.generation 1 (omega arith)),
        ))
    | inr le ↦ inr (
        inl (
          n,
          le,
          begin_ready s s.daemon_state refl n ∙ rw (checked_add-none s.generation 1 (omega arith)),
        ))
  ]
]

-- A publication that is refused changes nothing; another takes the current generation, or begins
-- the next one.
pub publication_lem :
    (operation_generation : Option ℕ) (candidate s : LifecycleState)
    → (publish_candidate operation_generation candidate s ≡ s)
      ⊎ ((g : ℕ) × (s.generation ≤ g)
          × ((g ≡ s.generation) ⊎ (g ≤ u64_max))
          × (publish_candidate operation_generation candidate s
              ≡ record candidate { generation = g }))
unfolding publish_candidate publication_generation
publication_lem none candidate s = elim (begin_lem s) [
  | inl (_, e) ↦ inl (ap (install candidate) e)
  | inr (inl (_, _, e)) ↦ inl (ap (install candidate) e)
  | inr (inr (_, lt, e)) ↦
      inr (s.generation + 1, omega arith, inr (omega arith), ap (install candidate) e)
]
publication_lem (some generation) candidate s = elim (Bool-cases (s.generation == generation)) [
  | inl t ↦ inr (
    generation,
    ground arith,
    inl (ground arith),
    simp (publish_candidate, publication_generation, t),
  )
  | inr f ↦ inl (simp (publish_candidate, publication_generation, f))
]

-- Nothing that happens makes the generation smaller.
pub step-generation : (s : LifecycleState) (e : Event) → s.generation ≤ (step s e).generation
unfolding step mark_starting mark_permanent mark_transient mark_running mark_stopped mark_stopping
    report_capture_fault
step-generation s (start profile) = omega arith
step-generation s (fail_permanently error) = omega arith
step-generation s (fail_transiently capture error now) = omega arith
step-generation s (run profile target) = omega arith
step-generation s (halt profile) = omega arith
step-generation s shut_down = omega arith
step-generation s (report error) = omega arith
step-generation s (publish operation_generation candidate) =
    elim (publication_lem operation_generation candidate s) [
      | inl e ↦ rw (step, e) (omega arith)
      | inr (_, le, _, e) ↦ rw (step, e) (omega (arith, le))
    ]
step-generation s begin = elim (begin_lem s) [
  | inl (_, e) ↦ rw (step, e) (omega arith)
  | inr (inl (_, _, e)) ↦ rw (step, e) (omega arith)
  | inr (inr (_, _, e)) ↦ rw (step, e) (omega arith)
]

begin_result :
    (s : LifecycleState) (g : ℕ)
    → (begin_operation s).1 ≡ ok g
    → (g ≡ s.generation + 1) × ((begin_operation s).0.generation ≡ g)
begin_result s g h = elim (begin_lem s) [
  | inl (_, e) ↦ let f = ap (λ p. p.1) e in absurd cc
  | inr (inl (_, _, e)) ↦ let f = ap (λ p. p.1) e in absurd cc
  | inr (inr (_, _, e)) ↦
      let f = ap (λ p. p.1) e in
      let n : s.generation + 1 ≡ g = cc in (sym n, ap (λ p. p.0.generation) e ∙ n)
]

pub steps-generation :
    (s : LifecycleState) (es : List Event) → s.generation ≤ (steps s es).generation
unfolding steps
steps-generation s [] = omega arith
steps-generation s (e ∷ es) =
    let a = step-generation s e in let b = steps-generation (step s e) es in omega arith

-- Whatever calls are made between them, an operation that begins later has a larger generation: no
-- generation is given out twice.
pub begin-fresh :
    (s t : LifecycleState)
    → (es : List Event) → (g k : ℕ) → begin_operation s ≡ (t, ok g)
    → (begin_operation (steps t es)).1 ≡ ok k
    → g < k
begin-fresh s t es g k h later =
    let a = begin_result s g (ap (λ p. p.1) h) in
    let b = begin_result (steps t es) k later in
    let c = steps-generation t es in let d = ap (λ p. p.0.generation) h in omega arith
