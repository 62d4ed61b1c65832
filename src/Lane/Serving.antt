-- ===== src/Lane/Serving.antt =====
-- Histories of the lane: which jobs reach the worker, and in which order.
use mathlib.Core.List.{append_assoc}
use last_audio_memory_buffer.Base.{
  ℕ, ◌+◌, ◌≤◌, ◌≡◌, ◌∙◌, refl, sym, ap, subst, List, [], ◌∷◌, ◌++◌, length, length-append, arith,
  Bool, true, false, none, each_branch, each_option,
}
use last_audio_memory_buffer.Base.Error.{ok}
use last_audio_memory_buffer.Lane.{
  LaneState, WorkerPhase, looking, deciding, waiting, holding, returned, OperationWorker, new_lane,
  try_enqueue, close, operation_turn, submit, shut, start_worker,
}

-- What happens next: a caller submits a job, the lane is closed, or the worker takes a step; a wait
-- may also end by itself.
pub data LaneEvent (Job : Type 0) : Type 0 where
  submits : Job → LaneEvent Job
  closes : LaneEvent Job
  works : LaneEvent Job

module _ {Job : Type 0} where
  unfoldable pub lane_step : LaneEvent Job → OperationWorker Job → OperationWorker Job
  unfolding submit shut operation_turn
  lane_step (submits job) w = submit job w
  lane_step closes w = shut w
  lane_step works w = operation_turn w

  unfoldable pub lane_run : List (LaneEvent Job) → OperationWorker Job → OperationWorker Job
  unfolding lane_step
  lane_run [] w = w
  lane_run (e ∷ es) w = lane_run es (lane_step e w)

  abbrev pub held : WorkerPhase Job → List Job
  held (holding job) = job ∷ []
  held _ = []

  -- A worker that does not look any more has nothing to do.
  abbrev pub IsIdle : LaneState Job → WorkerPhase Job → Type 0
  IsIdle l deciding = l.queue ≡ []
  IsIdle l waiting = l.queue ≡ []
  IsIdle l returned = (l.queue ≡ []) × (l.is_closed ≡ true)
  IsIdle l _ = Unit

  -- Every accepted job is done, in hand or queued, in the order of acceptance.
  pub record Serves (w : OperationWorker Job) : Type 0 where
    pub in_order : w.finished ++ (held w.phase ++ w.lane.queue) ≡ w.accepted
    pub bounded : length w.lane.queue ≤ w.lane.capacity
    pub idle : IsIdle w.lane w.phase

  pub start-Serves :
      (capacity : ℕ) (l : LaneState Job) → new_lane capacity ≡ ok l → Serves (start_worker l)
  unfolding new_lane
  start-Serves capacity l h =
      let empty : l.queue ≡ [] = ground arith in
      record { in_order = empty; bounded = omega (arith, ap length empty); idle = tt }

  pub shut-Serves :
      (l : LaneState Job) (p : WorkerPhase Job) (a h c f : List Job)
      → let w : OperationWorker Job = record {
        lane = l;
        phase = p;
        accepted = a;
        handled = h;
        cancelled = c;
        finished = f;
      } in
        Serves w → Serves (shut w)
  unfolding shut close
  shut-Serves l looking a h c f v = record { in_order = v.in_order; bounded = v.bounded; idle = tt }
  shut-Serves l deciding a h c f v = record {
    in_order = v.in_order;
    bounded = v.bounded;
    idle = v.idle;
  }
  shut-Serves l waiting a h c f v = record { in_order = v.in_order; bounded = v.bounded; idle = tt }
  shut-Serves l (holding job) a h c f v = record {
    in_order = v.in_order;
    bounded = v.bounded;
    idle = tt;
  }
  shut-Serves l returned a h c f v = record {
    in_order = v.in_order;
    bounded = v.bounded;
    idle = (v.idle.0, refl);
  }

  pub enqueue_accepts :
      (job : Job) (l : LaneState Job)
      → (try_enqueue job l).1 ≡ none
      → ((try_enqueue job l).0 ≡ record l { queue = l.queue ++ (job ∷ []) })
        × (length l.queue + 1 ≤ l.capacity)
        × (l.is_closed ≡ false)
  unfolding try_enqueue
  enqueue_accepts job l h = ground arith

  -- What an accepted job does, whose worker goes on in `p'`.
  pub accepted-Serves :
      (job : Job) (l : LaneState Job) (p p' : WorkerPhase Job) (a h c f : List Job)
      → let w : OperationWorker Job = record {
        lane = l;
        phase = p;
        accepted = a;
        handled = h;
        cancelled = c;
        finished = f;
      } in
        Serves w
        → held p' ≡ held p
        → (l.is_closed ≡ false → IsIdle (record l { queue = l.queue ++ (job ∷ []) }) p')
        → (try_enqueue job l).1 ≡ none
        → Serves (record w { lane = (try_enqueue job l).0; phase = p'; accepted = a ++ (job ∷ []) })
  accepted-Serves job l p p' a h c f v same idle e =
      let (form, room, open_) = enqueue_accepts job l e in
      subst
        (λ (m : LaneState Job). Serves (record {
          lane = m;
          phase = p';
          accepted = a ++ (job ∷ []);
          handled = h;
          cancelled = c;
          finished = f;
        }))
        (sym form)
        (record {
          in_order =
              ap (λ x. f ++ (x ++ (l.queue ++ (job ∷ [])))) same
              ∙ ap (λ x. f ++ x) (sym (append_assoc (held p) l.queue (job ∷ [])))
              ∙ sym (append_assoc f (held p ++ l.queue) (job ∷ []))
              ∙ ap (λ x. x ++ (job ∷ [])) v.in_order;
          bounded = omega (arith, room, length-append l.queue (job ∷ []));
          idle = idle open_;
        })

  pub submit-Serves :
      (job : Job) (l : LaneState Job) (p : WorkerPhase Job) (a h c f : List Job)
      → let w : OperationWorker Job = record {
        lane = l;
        phase = p;
        accepted = a;
        handled = h;
        cancelled = c;
        finished = f;
      } in
        Serves w → Serves (submit job w)
  unfolding submit
  submit-Serves job l deciding a h c f v = v
  submit-Serves job l looking a h c f v =
      each_option Serves (try_enqueue job l).1
        (λ e. accepted-Serves job l looking looking a h c f v refl (λ _. tt) e) (λ _ _. v)
  submit-Serves job l waiting a h c f v =
      each_option Serves (try_enqueue job l).1
        (λ e. accepted-Serves job l waiting looking a h c f v refl (λ _. tt) e) (λ _ _. v)
  submit-Serves job l (holding other) a h c f v =
      each_option Serves (try_enqueue job l).1
        (λ e. accepted-Serves job l (holding other) (holding other) a h c f v refl (λ _. tt) e)
        (λ _ _. v)
  submit-Serves job l returned a h c f v =
      let shut = v.idle.1 in
      each_option Serves (try_enqueue job l).1
        (λ e. accepted-Serves job l returned returned a h c f v refl (λ o. absurd cc) e) (λ _ _. v)

  pub look-Serves :
      (q : List Job) (n : ℕ) (b : Bool) (a h c f : List Job)
      → let w : OperationWorker Job = record {
        lane = record { queue = q; capacity = n; is_closed = b };
        phase = looking;
        accepted = a;
        handled = h;
        cancelled = c;
        finished = f;
      } in
        Serves w → Serves (operation_turn w)
  unfolding operation_turn
  look-Serves [] n true a h c f v = record {
    in_order = v.in_order;
    bounded = v.bounded;
    idle = (refl, refl);
  }
  look-Serves [] n false a h c f v = record {
    in_order = v.in_order;
    bounded = v.bounded;
    idle = refl;
  }
  look-Serves (job ∷ q) n b a h c f v = record {
    in_order = v.in_order;
    bounded = omega (arith, v.bounded);
    idle = tt;
  }

  pub turn-Serves :
      (l : LaneState Job) (p : WorkerPhase Job) (a h c f : List Job)
      → let w : OperationWorker Job = record {
        lane = l;
        phase = p;
        accepted = a;
        handled = h;
        cancelled = c;
        finished = f;
      } in
        Serves w → Serves (operation_turn w)
  unfolding operation_turn
  turn-Serves l looking a h c f v = look-Serves l.queue l.capacity l.is_closed a h c f v
  turn-Serves l deciding a h c f v = record {
    in_order = v.in_order;
    bounded = v.bounded;
    idle = v.idle;
  }
  turn-Serves l waiting a h c f v = record { in_order = v.in_order; bounded = v.bounded; idle = tt }
  turn-Serves l returned a h c f v = v
  turn-Serves l (holding job) a h c f v =
      let order = append_assoc f (job ∷ []) l.queue ∙ v.in_order in
      each_branch Serves l.is_closed
        (λ _. record { in_order = order; bounded = v.bounded; idle = tt })
        (λ _. record { in_order = order; bounded = v.bounded; idle = tt })

  pub step-Serves :
      (e : LaneEvent Job) (w : OperationWorker Job) → Serves w → Serves (lane_step e w)
  unfolding lane_step
  step-Serves (submits job) w v =
      submit-Serves job w.lane w.phase w.accepted w.handled w.cancelled w.finished v
  step-Serves closes w v = shut-Serves w.lane w.phase w.accepted w.handled w.cancelled w.finished v
  step-Serves works w v = turn-Serves w.lane w.phase w.accepted w.handled w.cancelled w.finished v

  pub run-Serves :
      (es : List (LaneEvent Job)) (w : OperationWorker Job) → Serves w → Serves (lane_run es w)
  unfolding lane_run
  run-Serves [] w v = v
  run-Serves (e ∷ es) w v = run-Serves es (lane_step e w) (step-Serves e w v)

  -- In any history of a lane that `OperationLane::new` made and of its worker: the jobs the worker
  -- is done with, the one in hand and those queued are the accepted ones, in the order of
  -- acceptance; at most `capacity` are queued; and while the worker waits none is queued, and it
  -- has returned only from a lane that is closed and empty.
  pub lane_run_lem :
      (capacity : ℕ) (l : LaneState Job) (es : List (LaneEvent Job))
      → new_lane capacity ≡ ok l
      → Serves (lane_run es (start_worker l))
  lane_run_lem capacity l es h = run-Serves es (start_worker l) (start-Serves capacity l h)
