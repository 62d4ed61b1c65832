-- ===== src/Ingress/Delivery.antt =====
-- `try_push_interleaved` on a queue that no worker empties: what is queued and what is dropped.
use native.Mathlib.Nat.{mul-div_cancel, mul-mod_left}
use last_audio_memory_buffer.Base.{
  ℕ, ◌+◌, ◌-◌, ◌*◌, ◌/◌, ◌%◌, ◌<◌, ◌≤◌, ◌≡◌, ◌≢◌, ◌∙◌, refl, sym, ap, ap₂, subst, min, List, ◌++◌,
  length, concat, arith, take, slice, u64_mod, Bool, false, checked_add, Option-cases, inl, inr,
}
use last_audio_memory_buffer.Base.Error.{Result, ok, err}
use last_audio_memory_buffer.Ingress.{
  IngressQueue, CapturePushOutcome, producer_open, acquire_admission, drop_admission,
}
use last_audio_memory_buffer.Ingress.Push.{push_guards, push_loop, try_push, try_push_interleaved}
use last_audio_memory_buffer.Ingress.Carries.{Carries}
use last_audio_memory_buffer.Ingress.Ends.{HasRoom}
use last_audio_memory_buffer.Ingress.Loop.{push_loop-Delivered}

-- The frames of an input of `total_frames` that find room beside the `queued` blocks.
abbrev pub room_for : IngressQueue → ℕ → ℕ → ℕ
room_for q queued total_frames = min total_frames ((length q.slots - queued) * q.slot_frames)

push_guards-ok :
    (samples : List ℕ) (q : IngressQueue) (total_frames : ℕ)
    → 0 < q.channels
    → length samples ≡ total_frames * q.channels
    → q.drop_counter_exhausted ≡ false
    → push_guards samples q.channels q ≡ ok total_frames
unfolding push_guards
push_guards-ok samples q total_frames some_channels whole fine =
    let d : length samples / q.channels ≡ total_frames =
      ap (λ n. n / q.channels) whole ∙ mul-div_cancel total_frames some_channels in
    let m : length samples % q.channels ≡ 0 =
      ap (λ n. n % q.channels) whole ∙ mul-mod_left total_frames q.channels in
    ground (arith, d, m)

-- The admission fields are no part of what the queue carries.
admission-Carries :
    (q : IngressQueue) (blocks : List (List ℕ)) (admission generation : ℕ) (exhausted : Bool)
    → Carries q blocks
    → Carries
        (record q {
          producer_admission = admission;
          producer_generation = generation;
          producer_generation_exhausted = exhausted;
        })
        blocks
admission-Carries q blocks admission generation exhausted v = record {
  some_slots = v.some_slots;
  some_channels = v.some_channels;
  some_frames = v.some_frames;
  frames_u32 = v.frames_u32;
  span = v.span;
  room = v.room;
  counted = v.counted;
  sizes = v.sizes;
  block = λ k b e.
      let (slot, found, holds) = v.block k b e in
      (slot, found, record { whole = holds.whole; fits = holds.fits; copied = holds.copied });
}

drop_form :
    (q : IngressQueue)
    → drop_admission q ≡ record q {
      producer_admission = (drop_admission q).producer_admission;
      producer_generation = (drop_admission q).producer_generation;
      producer_generation_exhausted = (drop_admission q).producer_generation_exhausted;
    }
unfolding drop_admission
drop_form q = elim (Option-cases (checked_add q.producer_generation 1)) [
  | inl n ↦ rw (drop_admission, n) refl
  | inr (g, e) ↦ rw (drop_admission, e) refl
]

-- What a call on `q` that meets no worker leaves behind, and what it answers.
pub record Delivers (q : IngressQueue) (samples : List ℕ) (blocks : List (List ℕ))
    (total_frames frames : ℕ) (out : IngressQueue × Result CapturePushOutcome) : Type 0 where
  pub added : List (List ℕ)
  pub carries : Carries out.0 (blocks ++ added)
  pub copies : concat added ≡ take (frames * q.channels) samples
  pub answers :
      out.1
      ≡ ok (record {
        enqueued = frames;
        dropped = total_frames - frames;
        published = out.0.published_sequence;
      })
  pub enqueued : out.0.enqueued_frames ≡ q.enqueued_frames + frames
  pub dropped : out.0.dropped_frames ≡ q.dropped_frames + (total_frames - frames)

module _ (samples : List ℕ) (q : IngressQueue) (blocks : List (List ℕ)) (total_frames : ℕ)
    (v : Carries q blocks) (whole : length samples ≡ total_frames * q.channels)
    (small : length samples < u64_mod) (room : HasRoom q total_frames) where
  try_push-Delivers :
      Delivers q samples blocks total_frames
        (room_for q (length blocks) total_frames)
        (try_push samples q.channels q)
  unfolding try_push slice
  try_push-Delivers =
      let d =
        push_loop-Delivered (total_frames + length q.slots) samples total_frames 0 0 q blocks v
          (omega arith) (omega arith) whole small in
      let (answer, lost, all) = d.answers (subst (HasRoom q) (omega arith) room) in
      let filled : d.moved ≡ room_for q (length blocks) total_frames = all ∙ omega arith in
      let rest : d.left ≡ total_frames - room_for q (length blocks) total_frames =
        omega (arith, d.parts, filled) in
      let start : slice samples (0 * q.channels) (d.moved * q.channels)
          ≡ take (room_for q (length blocks) total_frames * q.channels) samples =
        ap₂ (slice samples) {x = 0 * q.channels} {y = 0} (omega arith)
          (ap (λ n. n * q.channels) filled) in
      rw (try_push, push_guards-ok samples q total_frames v.some_channels whole room.not_exhausted)
        (record {
          added = d.added;
          carries = d.carries;
          copies = d.copies ∙ start;
          answers =
              answer
              ∙ ap₂
                  (λ n m. ok (record {
                    enqueued = n;
                    dropped = m;
                    published =
                        (push_loop (total_frames + length q.slots) samples total_frames 0 0
                          q).0.published_sequence;
                  }))
                  (d.reaches ∙ omega arith ∙ filled) rest;
          enqueued = d.counts ∙ ap (λ n. q.enqueued_frames + n) filled;
          dropped = lost ∙ ap (λ n. q.dropped_frames + n) rest;
        })

-- What the drop of an admission leaves of a delivery.
drop-Delivers :
    (q : IngressQueue) (samples : List ℕ) (blocks : List (List ℕ)) (total_frames frames : ℕ)
    (out : IngressQueue × Result CapturePushOutcome)
    → Delivers q samples blocks total_frames frames out
    → Delivers q samples blocks total_frames frames (drop_admission out.0, out.1)
drop-Delivers q samples blocks total_frames frames out d =
    let form = drop_form out.0 in
    record {
      added = d.added;
      carries =
          subst (λ t. Carries t (blocks ++ d.added)) (sym form)
            (admission-Carries out.0 (blocks ++ d.added) _ _ _ d.carries);
      copies = d.copies;
      answers =
          d.answers
          ∙ ap
              (λ n.
                ok (record { enqueued = frames; dropped = total_frames - frames; published = n }))
              (sym (ap (λ t. t.published_sequence) form));
      enqueued = ap (λ t. t.enqueued_frames) form ∙ d.enqueued;
      dropped = ap (λ t. t.dropped_frames) form ∙ d.dropped;
    }

acquire_form :
    (q : IngressQueue)
    → producer_open ≤ q.producer_admission
    → q.producer_admission % producer_open ≢ producer_open - 1
    → acquire_admission q ≡ (record q { producer_admission = q.producer_admission + 1 }, ok tt)
unfolding acquire_admission
acquire_form q is_open spare = ground arith

admitted_form :
    (samples : List ℕ) (channels : ℕ) (q : IngressQueue)
    → producer_open ≤ q.producer_admission
    → q.producer_admission % producer_open ≢ producer_open - 1
    → try_push_interleaved samples channels q ≡ (
      drop_admission
          (try_push samples channels
            (record q { producer_admission = q.producer_admission + 1 })).0,
      (try_push samples channels (record q { producer_admission = q.producer_admission + 1 })).1,
    )
unfolding try_push_interleaved
admitted_form samples channels q is_open spare =
    ap
      (λ admitted. elim admitted.1 as (λ _. IngressQueue × Result CapturePushOutcome) [
        | err e ↦ (admitted.0, err e)
        | ok _ ↦ (
          drop_admission (try_push samples channels admitted.0).0,
          (try_push samples channels admitted.0).1,
        )
      ])
      (acquire_form q is_open spare)

-- A call of `try_push_interleaved` that is admitted, on a queue that carries `blocks`, while the
-- worker takes nothing: where the samples are whole frames, fewer than 2 ^ 64, and the sequence
-- number and the counters have room for them, it answers `ok`. The frames that fit, `room_for`,
-- are added behind `blocks` in blocks that hold, one after the other, the first samples of the
-- input in their order; the rest is dropped. The outcome and the counters say how many of each.
pub try_push_interleaved_lem :
    (samples : List ℕ) (q : IngressQueue) (blocks : List (List ℕ)) (total_frames : ℕ)
    → Carries q blocks
    → producer_open ≤ q.producer_admission
    → q.producer_admission % producer_open ≢ producer_open - 1
    → length samples ≡ total_frames * q.channels
    → length samples < u64_mod
    → HasRoom q total_frames
    → Delivers q samples blocks total_frames
        (room_for q (length blocks) total_frames)
        (try_push_interleaved samples q.channels q)
try_push_interleaved_lem samples q blocks total_frames v is_open spare whole small room =
    let d =
      try_push-Delivers samples (record q { producer_admission = q.producer_admission + 1 }) blocks
        total_frames
        (admission-Carries q blocks (q.producer_admission + 1) q.producer_generation
          q.producer_generation_exhausted v)
        whole small
        (record {
          publishes = room.publishes;
          enqueues = room.enqueues;
          drops = room.drops;
          cumulates = room.cumulates;
          not_exhausted = room.not_exhausted;
        }) in
    let done =
      drop-Delivers _ samples blocks total_frames (room_for q (length blocks) total_frames) _ d in
    subst (Delivers q samples blocks total_frames (room_for q (length blocks) total_frames))
      (sym (admitted_form samples q.channels q is_open spare))
      (record {
        added = done.added;
        carries = done.carries;
        copies = done.copies;
        answers = done.answers;
        enqueued = done.enqueued;
        dropped = done.dropped;
      })
