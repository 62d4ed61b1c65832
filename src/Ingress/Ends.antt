-- ===== src/Ingress/Ends.antt =====
-- How a turn of `try_push` may end: what the queue carries and counts after it.
use last_audio_memory_buffer.Base.{
  ℕ, ◌+◌, ◌-◌, ◌*◌, ◌<◌, ◌≤◌, ◌≡◌, refl, min, List, [], ◌∷◌, ◌++◌, length, false, arith,
  checked_add, slice, u64_mod,
}
use last_audio_memory_buffer.Base.Error.{Result, ok, err, LambError}
use last_audio_memory_buffer.Ingress.{
  IngressQueue, CapturePushOutcome, add_enqueued_frames, add_ingress_dropped,
  add_cumulative_dropped_frames,
}
use last_audio_memory_buffer.Ingress.Push.{PushTurn, pushed, returned}
use last_audio_memory_buffer.Ingress.Carries.{Carries}

-- The queue keeps its shape, and what the consumer has taken.
pub record SameShape (q q' : IngressQueue) : Type 0 where
  pub channels : q'.channels ≡ q.channels
  pub slot_frames : q'.slot_frames ≡ q.slot_frames
  pub slot_count : length q'.slots ≡ length q.slots
  pub consumed : q'.consumed_sequence ≡ q.consumed_sequence

-- The counters have room for `frames` more frames.
pub record HasRoom (q : IngressQueue) (frames : ℕ) : Type 0 where
  pub publishes : q.published_sequence + frames < u64_mod
  pub enqueues : q.enqueued_frames + frames < u64_mod
  pub drops : q.dropped_frames + frames < u64_mod
  pub cumulates : q.cumulative_dropped_frames + frames < u64_mod
  pub not_exhausted : q.drop_counter_exhausted ≡ false

module _ (samples : List ℕ) (total_frames source_frame enqueued : ℕ) (q : IngressQueue)
    (blocks : List (List ℕ)) where
  -- The frames of the next block.
  abbrev pub next_frames : ℕ
  next_frames = min (total_frames - source_frame) q.slot_frames

  abbrev pub next_samples : List ℕ
  next_samples = slice samples (source_frame * q.channels) (next_frames * q.channels)

  pub record Pushed (q' : IngressQueue) (source_frame' enqueued' : ℕ) : Type 0 where
    pub carries : Carries q' (blocks ++ (next_samples ∷ []))
    pub shape : SameShape q q'
    pub source_moves : source_frame' ≡ source_frame + next_frames
    pub enqueued_moves : enqueued' ≡ enqueued + next_frames
    pub counts : q'.enqueued_frames ≡ q.enqueued_frames + next_frames
    pub same_dropped : q'.dropped_frames ≡ q.dropped_frames
    pub same_cumulative : q'.cumulative_dropped_frames ≡ q.cumulative_dropped_frames
    pub same_exhausted : q'.drop_counter_exhausted ≡ q.drop_counter_exhausted
    pub space : length blocks < length q.slots

  pub record Returned (q' : IngressQueue) (result : Result CapturePushOutcome) : Type 0 where
    pub carries : Carries q' blocks
    pub shape : SameShape q q'
    pub same_enqueued : q'.enqueued_frames ≡ q.enqueued_frames
    pub succeeds :
        (out : CapturePushOutcome)
        → result ≡ ok out
        → (length blocks ≡ length q.slots)
          × (out.enqueued ≡ enqueued)
          × (out.dropped ≡ total_frames - source_frame)
          × (q'.dropped_frames ≡ q.dropped_frames + (total_frames - source_frame))
    pub answers :
        HasRoom q (total_frames - source_frame)
        → result
          ≡ ok (record {
            enqueued = enqueued;
            dropped = total_frames - source_frame;
            published = q'.published_sequence;
          })

  abbrev pub PushEnds : PushTurn → Type 0
  PushEnds (pushed q' source_frame' enqueued') = Pushed q' source_frame' enqueued'
  PushEnds (returned q' result) = Returned q' result

  -- An error before anything is changed.
  pub unchanged-Returned :
      (e : LambError)
      → ¬ HasRoom q (total_frames - source_frame)
      → Carries q blocks
      → Returned q (err e)
  unchanged-Returned e refused v = record {
    carries = v;
    shape = record { channels = refl; slot_frames = refl; slot_count = refl; consumed = refl };
    same_enqueued = refl;
    succeeds = λ out h. absurd cc;
    answers = λ room. absurd (refused room);
  }

pub ok-injective : {A : Type 0} {a b : A} → ok a ≡ ok b → a ≡ b
ok-injective e = cc

pub enqueued_refused :
    (frames : ℕ) (q : IngressQueue) (e : LambError)
    → (add_enqueued_frames frames q).1 ≡ err e
    → ((add_enqueued_frames frames q).0 ≡ q) × (u64_mod ≤ q.enqueued_frames + frames)
unfolding add_enqueued_frames checked_add
enqueued_refused frames q e h = ground arith

pub enqueued_form :
    (frames : ℕ) (q : IngressQueue)
    → (add_enqueued_frames frames q).1 ≡ ok tt
    → (add_enqueued_frames frames q).0 ≡ record q { enqueued_frames = q.enqueued_frames + frames }
unfolding add_enqueued_frames checked_add
enqueued_form frames q h = ground arith

-- A drop changes the counters alone.
pub dropped_form :
    (frames : ℕ) (q : IngressQueue)
    → (add_ingress_dropped frames q).0 ≡ record q {
      dropped_frames = (add_ingress_dropped frames q).0.dropped_frames;
      cumulative_dropped_frames = (add_ingress_dropped frames q).0.cumulative_dropped_frames;
      drop_counter_exhausted = (add_ingress_dropped frames q).0.drop_counter_exhausted;
    }
unfolding add_ingress_dropped add_cumulative_dropped_frames
dropped_form frames q = ground arith

pub dropped_count :
    (frames : ℕ) (q : IngressQueue)
    → (add_ingress_dropped frames q).1 ≡ ok tt
    → (add_ingress_dropped frames q).0.dropped_frames ≡ q.dropped_frames + frames
unfolding add_ingress_dropped add_cumulative_dropped_frames checked_add
dropped_count frames q h = ground arith

pub dropped_accepted :
    (frames : ℕ) (q : IngressQueue)
    → q.dropped_frames + frames < u64_mod
    → q.cumulative_dropped_frames + frames < u64_mod
    → q.drop_counter_exhausted ≡ false
    → (add_ingress_dropped frames q).1 ≡ ok tt
unfolding add_ingress_dropped add_cumulative_dropped_frames checked_add
dropped_accepted frames q h h' e = ground arith
