-- ===== src/Lane.antt =====
-- src/control_server.rs: the lane of queued operations, and the one worker that takes from it. The
-- queue is under a lock; `close` does not take it, and an empty queue makes the worker wait.
mod Tests
pub mod Serving
pub mod Runs
use last_audio_memory_buffer.Base.{
  ℕ, List, [], ◌∷◌, ◌++◌, length, Bool, true, false, Option, none, some, if◌then◌else◌, leb, ◌==◌,
  String,
}
use last_audio_memory_buffer.Base.Error.{Result, ok, err, control}

pub data EnqueueError : Type 0 where
  full closed : EnqueueError

-- `LaneState`
pub record LaneState (Job : Type 0) : Type 0 where
  pub queue : List Job
  pub capacity : ℕ
  pub is_closed : Bool

-- What a turn of the loop of `pop` does: it returns a job, or nothing, or waits.
pub data PopTurn (Job : Type 0) : Type 0 where
  popped : Job → PopTurn Job
  drained : PopTurn Job
  must_wait : PopTurn Job

-- Where the worker is: before a turn of `pop`, past its look at `closed` but not yet waiting,
-- waiting, with a job, or returned.
pub data WorkerPhase (Job : Type 0) : Type 0 where
  looking : WorkerPhase Job
  deciding : WorkerPhase Job
  waiting : WorkerPhase Job
  holding : Job → WorkerPhase Job
  returned : WorkerPhase Job

-- The lane with its worker, and the jobs that were accepted, handled and cancelled, and all that
-- the worker is done with.
pub record OperationWorker (Job : Type 0) : Type 0 where
  pub lane : LaneState Job
  pub phase : WorkerPhase Job
  pub accepted : List Job
  pub handled : List Job
  pub cancelled : List Job
  pub finished : List Job

module _ {Job : Type 0} where
  -- `OperationLane::new`
  unfoldable pub new_lane : ℕ → Result (LaneState Job)
  new_lane capacity =
      if capacity == 0
      then err (control "operation lane capacity must be greater than zero")
      else ok (record { queue = []; capacity = capacity; is_closed = false })

  -- `try_enqueue`; the error comes with the job that is given back.
  unfoldable pub try_enqueue : Job → LaneState Job → LaneState Job × Option EnqueueError
  try_enqueue job l =
      if l.is_closed
      then (l, some closed)
      else if leb l.capacity (length l.queue)
      then (l, some full)
      else (record l { queue = l.queue ++ (job ∷ []) }, none)

  -- A turn of the loop of `pop`.
  unfoldable pub pop_turn : LaneState Job → LaneState Job × PopTurn Job
  pop_turn l = elim l.queue [
    | job ∷ jobs ↦ (record l { queue = jobs }, popped job)
    | [] ↦ (l, if l.is_closed then drained else must_wait)
  ]

  -- `close`
  unfoldable pub close : LaneState Job → LaneState Job
  close l = record l { is_closed = true }

  -- A notification wakes a worker that waits, and is lost on any other.
  abbrev pub notified : WorkerPhase Job → WorkerPhase Job
  notified waiting = looking
  notified phase = phase

  abbrev pub after_pop : LaneState Job × PopTurn Job → OperationWorker Job → OperationWorker Job
  after_pop (l, popped job) w = record w { lane = l; phase = holding job }
  after_pop (l, drained) w = record w { lane = l; phase = returned }
  after_pop (l, must_wait) w = record w { lane = l; phase = deciding }

  -- The loop of `spawn_operation_worker`: the next step of the worker in its phase.
  unfoldable pub operation_turn : OperationWorker Job → OperationWorker Job
  unfolding pop_turn
  operation_turn w = elim w.phase [
    | looking ↦ after_pop (pop_turn w.lane) w
    | deciding ↦ record w { phase = waiting }
    | waiting ↦ record w { phase = looking }
    | holding job ↦
        if w.lane.is_closed
        then record w {
          phase = looking;
          cancelled = w.cancelled ++ (job ∷ []);
          finished = w.finished ++ (job ∷ []);
        }
        else record w {
          phase = looking;
          handled = w.handled ++ (job ∷ []);
          finished = w.finished ++ (job ∷ []);
        }
    | returned ↦ w
  ]

  -- A caller's `try_enqueue`, which needs the lock that a deciding worker holds.
  unfoldable pub submit : Job → OperationWorker Job → OperationWorker Job
  unfolding try_enqueue
  submit job w = elim w.phase [
    | deciding ↦ w
    | _ ↦
        let out = try_enqueue job w.lane in
        elim out.1 [
          | some e ↦ w
          | none ↦ record w {
            lane = out.0;
            phase = notified w.phase;
            accepted = w.accepted ++ (job ∷ []);
          }
        ]
  ]

  unfoldable pub shut : OperationWorker Job → OperationWorker Job
  unfolding close
  shut w = record w { lane = close w.lane; phase = notified w.phase }

  abbrev pub start_worker : LaneState Job → OperationWorker Job
  start_worker l = record {
    lane = l;
    phase = looking;
    accepted = [];
    handled = [];
    cancelled = [];
    finished = [];
  }
