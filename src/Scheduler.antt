-- ===== src/Scheduler.antt =====
-- src/daemon_lifecycle.rs: the retry scheduler. Each call of its handle holds the lock, so it is a
-- function on the state; so is each turn of the worker's loop, between one wait and the next.
pub mod Blocked
pub mod Pending
mod Tests
pub mod Runs
pub mod Steps
pub mod Worker
use last_audio_memory_buffer.Base.{
  ℕ, ◌-◌, ◌==◌, ltb, add_u64, Bool, true, false, not, ◌||◌, if◌then◌else◌, Option, none, some,
  String, List, [], ◌∷◌,
}

-- `RuntimeCaptureFault`
pub data RuntimeCaptureFault : Type 0 where
  device_disconnected backend_fault : String → RuntimeCaptureFault

-- `ScheduledOperation`
pub data ScheduledOperation : Type 0 where
  retry : ℕ → ScheduledOperation
  runtime_fault : ℕ → ℕ → RuntimeCaptureFault → ScheduledOperation

unfoldable pub operation_generation : ScheduledOperation → ℕ
operation_generation (retry generation) = generation
operation_generation (runtime_fault generation attempt_id fault) = generation

-- `PendingOperation`
pub data PendingOperation : Type 0 where
  retry_at : ℕ → ℕ → PendingOperation
  immediate : ScheduledOperation → PendingOperation

unfoldable pub pending_generation : PendingOperation → ℕ
unfolding operation_generation
pending_generation (retry_at generation due) = generation
pending_generation (immediate operation) = operation_generation operation

unfoldable pub pending_operation : PendingOperation → ScheduledOperation
pending_operation (retry_at generation due) = retry generation
pending_operation (immediate operation) = operation

-- `SchedulerState`, without the counters that only tests have.
pub record SchedulerState : Type 0 where
  pub generation : ℕ
  pub pending : Option PendingOperation
  pub stopped : Bool
  pub wake_epoch : ℕ
  pub thread_spawned : Bool

unfoldable pub initial : SchedulerState
initial = record {
  generation = 0;
  pending = none;
  stopped = false;
  wake_epoch = 0;
  thread_spawned = false;
}

-- `notify_all` is the new epoch: a waiting worker takes another turn.
unfoldable pub schedule_retry : ℕ → ℕ → SchedulerState → SchedulerState
schedule_retry generation due s = if s.stopped || ltb generation s.generation then s else record s {
  generation = generation;
  pending = some (retry_at generation due);
  wake_epoch = add_u64 s.wake_epoch 1;
}

unfoldable pub notify_fault : ℕ → ℕ → RuntimeCaptureFault → SchedulerState → SchedulerState
notify_fault generation attempt_id fault s =
    if s.stopped || ltb generation s.generation then s else record s {
      generation = generation;
      pending = some (immediate (runtime_fault generation attempt_id fault));
      wake_epoch = add_u64 s.wake_epoch 1;
    }

unfoldable pub invalidate : ℕ → SchedulerState → SchedulerState
invalidate generation s =
    if ltb generation s.generation
    then s
    else record s { generation = generation; pending = none; wake_epoch = add_u64 s.wake_epoch 1 }

unfoldable pub notify_lane_available : SchedulerState → SchedulerState
notify_lane_available s = record s { wake_epoch = add_u64 s.wake_epoch 1 }

unfoldable pub stop : SchedulerState → SchedulerState
stop s = record s { stopped = true; pending = none; wake_epoch = add_u64 s.wake_epoch 1 }

-- The result of `submit`: `Ok`, or an `EnqueueError` of control_server.rs.
pub data Submission : Type 0 where
  accepted closed full : Submission

-- How a turn of the worker's loop ends: it returns, waits for a notification, waits at most some
-- milliseconds for one, or goes on with the next turn.
pub data Turn : Type 0 where
  returns waits continues : Turn
  waits_for : ℕ → Turn

pub record Turned : Type 0 where
  pub state : SchedulerState
  pub submitted : Option ScheduledOperation
  pub turn : Turn

-- The end of a turn, from `pending.operation()` on.
unfoldable pub submit_pending :
    (ScheduledOperation → Submission) → PendingOperation → SchedulerState → Turned
unfolding pending_operation
submit_pending submit pending s =
    let operation = pending_operation pending in
    let wake_epoch = s.wake_epoch in
    elim (submit operation) [
      | full ↦
          if s.wake_epoch == wake_epoch
          then record { state = s; submitted = some operation; turn = waits }
          else record { state = s; submitted = some operation; turn = continues }
      | _ ↦ record {
        state = record s { pending = none };
        submitted = some operation;
        turn = continues;
      }
    ]

-- The wait before a pending operation: a retry that is not due yet.
unfoldable pub too_early : ℕ → PendingOperation → Option ℕ
too_early now (retry_at generation due) = if ltb now due then some (due - now) else none
too_early now (immediate operation) = none

-- One turn of the loop of `spawn_retry_scheduler`, with the clock's reading and the queue's answer.
unfoldable pub worker_turn : ℕ → (ScheduledOperation → Submission) → SchedulerState → Turned
unfolding submit_pending too_early pending_generation
worker_turn now submit s =
    if s.stopped then record { state = s; submitted = none; turn = returns } else elim s.pending [
      | none ↦ record { state = s; submitted = none; turn = waits }
      | some pending ↦
          if not (pending_generation pending == s.generation)
          then record { state = record s { pending = none }; submitted = none; turn = continues }
          else elim (too_early now pending) [
            | some wait ↦ record { state = s; submitted = none; turn = waits_for wait }
            | none ↦ submit_pending submit pending s
          ]
    ]

-- `spawn_retry_scheduler` around the loop: `spawned` says whether the thread was created. The
-- second result says whether the call succeeded.
unfoldable pub spawn : Bool → SchedulerState → SchedulerState × Bool
spawn spawned s =
    if s.thread_spawned
    then (s, false)
    else if spawned
    then (record s { thread_spawned = true }, true)
    else (record s { thread_spawned = false }, false)

-- What happens to the scheduler, in the order in which the lock is taken.
pub data Event : Type 0 where
  scheduled : ℕ → ℕ → Event
  faulted : ℕ → ℕ → RuntimeCaptureFault → Event
  invalidated : ℕ → Event
  lane_available : Event
  stopping : Event
  spawning : Bool → Event
  turned : ℕ → (ScheduledOperation → Submission) → Event

-- The state after an event, and the operation it submits.
unfoldable pub step : SchedulerState → Event → SchedulerState × Option ScheduledOperation
unfolding schedule_retry notify_fault invalidate notify_lane_available stop worker_turn spawn
step s (scheduled generation due) = (schedule_retry generation due s, none)
step s (faulted generation attempt_id fault) = (notify_fault generation attempt_id fault s, none)
step s (invalidated generation) = (invalidate generation s, none)
step s lane_available = (notify_lane_available s, none)
step s stopping = (stop s, none)
step s (spawning spawned) = ((spawn spawned s).0, none)
step s (turned now submit) =
    ((worker_turn now submit s).state, (worker_turn now submit s).submitted)

-- The operations that a sequence of events submits, in their order, with the last state.
unfoldable pub run : SchedulerState → List Event → SchedulerState × List ScheduledOperation
unfolding step
run s [] = (s, [])
run s (e ∷ es) =
    let after = step s e in
    let rest = run after.0 es in
    elim after.1 [ none ↦ rest | some operation ↦ (rest.0, operation ∷ rest.1) ]
