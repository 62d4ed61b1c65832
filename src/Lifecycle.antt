-- ===== src/Lifecycle.antt =====
-- src/daemon_lifecycle.rs: the daemon's lifecycle state and its retry delays, with the state types
-- of src/control.rs and the assignments of src/daemon.rs to the state. The clock's readings are
-- arguments.
mod Tests
pub mod Begin
pub mod Retry
pub mod Status
use last_audio_memory_buffer.Base.{
  ℕ, zero, suc, ◌+◌, ◌-◌, ◌*◌, ◌/◌, ◌==◌, min, List, [], ◌∷◌, Option, none, some, String, true,
  false, ltb, if◌then◌else◌, get_elem?, checked_add, u64_max, u32_max, length,
}
use last_audio_memory_buffer.Base.Error.{Result, ok, err, control, control_invariant}

-- `DaemonState`, `CaptureState`, `ErrorClass` and `RetryPolicy` of control.rs
pub data DaemonState : Type 0 where
  ready degraded stopping : DaemonState

pub data CaptureState : Type 0 where
  stopped starting running waiting_for_device faulted : CaptureState

pub data ErrorClass : Type 0 where
  permanent transient fatal : ErrorClass

pub data RetryPolicy : Type 0 where
  unset manual bounded_backoff : RetryPolicy

-- `RETRY_DELAYS`, in milliseconds.
abbrev pub retry_delays : List ℕ
retry_delays = 1000 ∷ 2000 ∷ 5000 ∷ 10000 ∷ 30000 ∷ 60000 ∷ []

-- `retry_delay`: `saturating_sub`, and the last delay from the sixth attempt on. The index is
-- always in range, so the default is not used.
unfoldable pub retry_delay : ℕ → ℕ
retry_delay attempt = elim (get_elem? retry_delays (min (attempt - 1) (length retry_delays - 1))) [
  | some delay ↦ delay
  | none ↦ 0
]

-- `RetryInstant::checked_add`, on milliseconds.
unfoldable pub instant_add : ℕ → ℕ → Option ℕ
instant_add instant delay = if ltb u64_max delay then none else checked_add instant delay

-- `CaptureAttemptId::checked_after`
unfoldable pub checked_after : ℕ → Option ℕ
checked_after current = checked_add current 1

-- `LifecycleState`
pub record LifecycleState : Type 0 where
  pub daemon_state : DaemonState
  pub capture_state : CaptureState
  pub error_class : Option ErrorClass
  pub last_error : Option String
  pub retry_policy : RetryPolicy
  pub retry_attempt : ℕ
  pub next_retry_at : Option ℕ
  pub active_profile : Option String
  pub resolved_target : Option String
  pub generation : ℕ

unfoldable pub ready_stopped : Option String → LifecycleState
ready_stopped active_profile = record {
  daemon_state = ready;
  capture_state = stopped;
  error_class = none;
  last_error = none;
  retry_policy = unset;
  retry_attempt = 0;
  next_retry_at = none;
  active_profile = active_profile;
  resolved_target = none;
  generation = 0;
}

abbrev pub clear_error_and_retry : LifecycleState → LifecycleState
clear_error_and_retry s = record s {
  error_class = none;
  last_error = none;
  retry_policy = unset;
  retry_attempt = 0;
  next_retry_at = none;
}

unfoldable pub mark_starting : Option String → LifecycleState → LifecycleState
mark_starting active_profile s =
    record (clear_error_and_retry (record s { daemon_state = ready; capture_state = starting })) {
      active_profile = active_profile;
      resolved_target = none;
    }

unfoldable pub mark_permanent : String → LifecycleState → LifecycleState
mark_permanent error s = record s {
  daemon_state = degraded;
  capture_state = faulted;
  error_class = some permanent;
  last_error = some error;
  retry_policy = manual;
  retry_attempt = 0;
  next_retry_at = none;
}

-- `retry_attempt` saturates at `u32::MAX`.
unfoldable pub mark_transient : CaptureState → String → ℕ → LifecycleState → LifecycleState
unfolding retry_delay instant_add
mark_transient capture_state error now s =
    let attempt = min (s.retry_attempt + 1) u32_max in
    record s {
      daemon_state = degraded;
      capture_state = capture_state;
      error_class = some transient;
      last_error = some error;
      retry_policy = bounded_backoff;
      retry_attempt = attempt;
      next_retry_at = elim (instant_add now (retry_delay attempt)) [
        | some at ↦ some at
        | none ↦ some u64_max
      ];
    }

unfoldable pub mark_running : Option String → Option String → LifecycleState → LifecycleState
mark_running active_profile resolved_target s =
    record (clear_error_and_retry (record s { daemon_state = ready; capture_state = running })) {
      active_profile = active_profile;
      resolved_target = resolved_target;
    }

unfoldable pub mark_stopped : Option String → LifecycleState → LifecycleState
mark_stopped active_profile s =
    record (clear_error_and_retry (record s { daemon_state = ready; capture_state = stopped })) {
      active_profile = active_profile;
      resolved_target = none;
    }

unfoldable pub mark_stopping : LifecycleState → LifecycleState
mark_stopping s = clear_error_and_retry (record s { daemon_state = stopping })

-- `begin_operation`: the new generation, and the state that has it.
unfoldable pub begin_operation : LifecycleState → LifecycleState × Result ℕ
begin_operation s = elim s.daemon_state [
  | stopping ↦ (s, err (control "daemon is stopping"))
  | _ ↦ elim (checked_add s.generation 1) [
    | none ↦ (s, err (control_invariant "operation generation overflow"))
    | some next ↦ (record s { generation = next }, ok next)
  ]
]

-- The status report of a capture that has failed (daemon.rs), on its copy of the state.
unfoldable pub report_capture_fault : String → LifecycleState → LifecycleState
report_capture_fault error s = record s {
  daemon_state = degraded;
  capture_state = faulted;
  error_class = some transient;
  last_error = some error;
  retry_policy = manual;
  retry_attempt = 0;
  next_retry_at = none;
}

-- `publication_generation` of daemon.rs
unfoldable pub publication_generation : Option ℕ → LifecycleState → LifecycleState × Result ℕ
unfolding begin_operation
publication_generation none s = begin_operation s
publication_generation (some generation) s =
    if s.generation == generation
    then (s, ok generation)
    else (s, err (control "capture operation superseded"))

abbrev pub install : LifecycleState → LifecycleState × Result ℕ → LifecycleState
install candidate (s, ok generation) = record candidate { generation = generation }
install candidate (s, err _) = s

-- The publication of a started capture (daemon.rs): the candidate's state replaces the current one,
-- with the generation of the publication, unless the operation is superseded.
unfoldable pub publish_candidate : Option ℕ → LifecycleState → LifecycleState → LifecycleState
unfolding publication_generation
publish_candidate operation_generation candidate s =
    install candidate (publication_generation operation_generation s)

-- What changes a lifecycle state: a call of one of its methods, the daemon's report of a failed
-- capture, or the publication of a candidate.
pub data Event : Type 0 where
  start : Option String → Event
  fail_permanently : String → Event
  fail_transiently : CaptureState → String → ℕ → Event
  run : Option String → Option String → Event
  halt : Option String → Event
  shut_down : Event
  begin : Event
  report : String → Event
  publish : Option ℕ → LifecycleState → Event

unfoldable pub step : LifecycleState → Event → LifecycleState
unfolding mark_starting mark_permanent mark_transient mark_running mark_stopped mark_stopping
    begin_operation report_capture_fault publish_candidate
step s (start profile) = mark_starting profile s
step s (fail_permanently error) = mark_permanent error s
step s (fail_transiently capture error now) = mark_transient capture error now s
step s (run profile target) = mark_running profile target s
step s (halt profile) = mark_stopped profile s
step s shut_down = mark_stopping s
step s begin = (begin_operation s).0
step s (report error) = report_capture_fault error s
step s (publish operation_generation candidate) = publish_candidate operation_generation candidate s

unfoldable pub steps : LifecycleState → List Event → LifecycleState
unfolding step
steps s [] = s
steps s (e ∷ es) = steps (step s e) es
