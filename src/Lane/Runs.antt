-- ===== src/Lane/Runs.antt =====
-- What a close does to every later history of the lane.
use last_audio_memory_buffer.Base.{◌≡◌, List, ◌++◌, true}
use last_audio_memory_buffer.Lane.{OperationWorker}
use last_audio_memory_buffer.Lane.Serving.{held}

module _ {Job : Type 0} where
  -- What a history does to a worker whose lane is closed: the jobs `newly` finished are those
  -- cancelled, and they are the first of the jobs that were in hand or queued.
  pub record StaysShut (w w' : OperationWorker Job) : Type 0 where
    pub still_closed : w'.lane.is_closed ≡ true
    pub same_accepted : w'.accepted ≡ w.accepted
    pub same_handled : w'.handled ≡ w.handled
    pub newly : List Job
    pub newly_finished : w'.finished ≡ w.finished ++ newly
    pub newly_cancelled : w'.cancelled ≡ w.cancelled ++ newly
    pub in_order : newly ++ (held w'.phase ++ w'.lane.queue) ≡ held w.phase ++ w.lane.queue
