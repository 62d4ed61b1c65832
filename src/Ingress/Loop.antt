-- ===== src/Ingress/Loop.antt =====
-- The loop of `try_push`: it publishes the input in blocks until the queue is full, and drops the
-- rest.
use mathlib.Core.List.{append_assoc, append-nil}
use last_audio_memory_buffer.Base.{
  ℕ, zero, suc, ◌+◌, ◌-◌, ◌*◌, ◌<◌, ◌≤◌, ◌≡◌, ◌∙◌, refl, sym, ap, ap₂, subst, min, List, [], ◌∷◌,
  ◌++◌, length, concat, arith, slice, slice-++, slice-zero, u64_mod, ltb, length-append, ltb→lt,
  ltb_false→le, Bool-cases, inl, inr,
}
use last_audio_memory_buffer.Base.Error.{Result, ok}
use last_audio_memory_buffer.Ingress.{IngressQueue, CapturePushOutcome}
use last_audio_memory_buffer.Ingress.Push.{PushTurn, pushed, returned, push_turn, push_loop}
use last_audio_memory_buffer.Ingress.Carries.{Carries}
use last_audio_memory_buffer.Ingress.Ends.{
  SameShape, Pushed, HasRoom, PushEnds, next_frames, next_samples,
}
use last_audio_memory_buffer.Ingress.Turn.{push_turn-PushEnds}

module _ (samples : List ℕ) (total_frames source_frame enqueued : ℕ) (q : IngressQueue)
    (blocks : List (List ℕ)) where
  -- What the loop has done from `source_frame` on.
  pub record Delivered (out : IngressQueue × Result CapturePushOutcome) : Type 0 where
    pub added : List (List ℕ)
    pub moved : ℕ
    pub left : ℕ
    pub reached : ℕ
    pub parts : moved + left ≡ total_frames - source_frame
    pub reaches : reached ≡ enqueued + moved
    pub carries : Carries out.0 (blocks ++ added)
    pub copies : concat added ≡ slice samples (source_frame * q.channels) (moved * q.channels)
    pub shape : SameShape q out.0
    pub counts : out.0.enqueued_frames ≡ q.enqueued_frames + moved
    pub answers :
        HasRoom q (total_frames - source_frame)
        → (out.1
            ≡ ok (record {
              enqueued = reached;
              dropped = left;
              published = out.0.published_sequence;
            }))
          × (out.0.dropped_frames ≡ q.dropped_frames + left)
          × (moved
              ≡ min
                  (total_frames - source_frame)
                  ((length q.slots - length blocks) * q.slot_frames))

  nothing_moved :
      {out : IngressQueue × Result CapturePushOutcome}
      → Carries out.0 blocks
      → SameShape q out.0
      → out.0.enqueued_frames ≡ q.enqueued_frames
      → (HasRoom q (total_frames - source_frame)
          → (out.1
              ≡ ok (record {
                enqueued = enqueued;
                dropped = total_frames - source_frame;
                published = out.0.published_sequence;
              }))
            × (out.0.dropped_frames ≡ q.dropped_frames + (total_frames - source_frame))
            × (0
                ≡ min
                    (total_frames - source_frame)
                    ((length q.slots - length blocks) * q.slot_frames)))
      → Delivered out
  nothing_moved v shape count answers = record {
    added = [];
    moved = 0;
    left = total_frames - source_frame;
    reached = enqueued;
    parts = omega arith;
    reaches = omega arith;
    carries = subst (Carries _) (sym (append-nil blocks)) v;
    copies = sym (
        ap (slice samples (source_frame * q.channels)) (omega arith)
        ∙ slice-zero samples (source_frame * q.channels));
    shape = shape;
    counts = count ∙ omega arith;
    answers = answers;
  }

trans-SameShape : {p q r : IngressQueue} → SameShape p q → SameShape q r → SameShape p r
trans-SameShape s t = record {
  channels = t.channels ∙ s.channels;
  slot_frames = t.slot_frames ∙ s.slot_frames;
  slot_count = t.slot_count ∙ s.slot_count;
  consumed = t.consumed ∙ s.consumed;
}

-- One full block, or what is left, and then the rest.
min_blocks :
    (rest spare slot_frames frames : ℕ)
    → frames ≡ min rest slot_frames
    → 0 < spare
    → frames + min (rest - frames) ((spare - 1) * slot_frames) ≡ min rest (spare * slot_frames)
min_blocks rest zero slot_frames frames e h = absurd (omega arith)
min_blocks rest (suc spare) slot_frames frames e h =
    omega (arith, e, ap (λ (n : ℕ). n * slot_frames) {x = suc spare - 1} {y = spare} (omega arith))

same_capacity :
    {q q' : IngressQueue} (blocks : List (List ℕ)) (b : List ℕ)
    → SameShape q q'
    → (length q'.slots - length (blocks ++ (b ∷ []))) * q'.slot_frames
      ≡ (length q.slots - length blocks - 1) * q.slot_frames
same_capacity blocks b s =
    ap₂ ◌*◌ (omega (arith, s.slot_count, length-append blocks (b ∷ []))) s.slot_frames

module _ (samples : List ℕ) (total_frames source_frame enqueued : ℕ) (q : IngressQueue)
    (blocks : List (List ℕ)) (v : Carries q blocks) (more : source_frame < total_frames)
    (q' : IngressQueue) (source_frame' enqueued' : ℕ)
    (p : Pushed samples total_frames source_frame enqueued q blocks q' source_frame'
      enqueued') where
  -- A turn goes on by at least one frame.
  pub turn_moves :
      (source_frame < source_frame')
      × (source_frame' ≤ total_frames)
      × (q'.published_sequence ≡ q.published_sequence + 1)
  turn_moves = (
    omega (arith, p.source_moves, v.some_frames, more),
    omega (arith, p.source_moves, more),
    omega (
      arith,
      p.carries.span,
      v.span,
      p.shape.consumed,
      length-append blocks (
          slice samples (source_frame * q.channels)
            (next_frames samples total_frames source_frame enqueued q blocks * q.channels)
          ∷ []),
    ),
  )

  same_room : HasRoom q (total_frames - source_frame) → HasRoom q' (total_frames - source_frame')
  same_room r = record {
    publishes = omega (arith, r.publishes, turn_moves.0, turn_moves.1, turn_moves.2);
    enqueues = omega (arith, r.enqueues, turn_moves.1, p.source_moves, p.counts);
    drops = omega (arith, r.drops, turn_moves.0, p.same_dropped);
    cumulates = omega (arith, r.cumulates, turn_moves.0, p.same_cumulative);
    not_exhausted = p.same_exhausted ∙ r.not_exhausted;
  }

  -- A turn, and what the loop does after it.
  pub turn-Delivered :
      {out : IngressQueue × Result CapturePushOutcome}
      → Delivered samples total_frames source_frame' enqueued' q'
          (blocks ++ (next_samples samples total_frames source_frame enqueued q blocks ∷ []))
          out
      → Delivered samples total_frames source_frame enqueued q blocks out
  turn-Delivered {out} d =
      let block = next_samples samples total_frames source_frame enqueued q blocks in
      let frames = next_frames samples total_frames source_frame enqueued q blocks in
      let start : source_frame' * q'.channels ≡ source_frame * q.channels + frames * q.channels =
        ap₂ ◌*◌ p.source_moves p.shape.channels ∙ omega arith in
      let count : d.moved * q'.channels ≡ d.moved * q.channels =
        ap (λ c. d.moved * c) p.shape.channels in
      record {
        added = block ∷ d.added;
        moved = frames + d.moved;
        left = d.left;
        reached = d.reached;
        parts = omega (arith, d.parts, p.source_moves, turn_moves.1);
        reaches = omega (arith, d.reaches, p.enqueued_moves);
        carries = subst (Carries out.0) (append_assoc blocks (block ∷ []) d.added) d.carries;
        copies =
            ap (λ l. block ++ l) (d.copies ∙ ap₂ (slice samples) start count)
            ∙ slice-++ samples (source_frame * q.channels)
                (source_frame * q.channels + frames * q.channels) (frames * q.channels)
                (d.moved * q.channels) ((frames + d.moved) * q.channels) refl (omega arith);
        shape = trans-SameShape p.shape d.shape;
        counts = omega (arith, d.counts, p.counts);
        answers = λ r.
            let (result, dropped, filled) = d.answers (same_room r) in
            (
              result,
              dropped ∙ ap (λ n. n + d.left) p.same_dropped,
              ap (λ n. frames + n)
                    (filled
                      ∙ ap₂ min (omega (arith, p.source_moves))
                          (same_capacity blocks block p.shape))
                  ∙ min_blocks (total_frames - source_frame) (length q.slots - length blocks)
                      q.slot_frames frames refl (omega (arith, p.space)),
            );
      }

-- The loop from a source frame on, where the fuel is enough.
pub push_loop-Delivered :
    (fuel : ℕ) (samples : List ℕ) (total_frames source_frame enqueued : ℕ) (q : IngressQueue)
    (blocks : List (List ℕ))
    → Carries q blocks
    → source_frame ≤ total_frames
    → total_frames ≤ source_frame + fuel
    → length samples ≡ total_frames * q.channels
    → length samples < u64_mod
    → Delivered samples total_frames source_frame enqueued q blocks
        (push_loop fuel samples total_frames source_frame enqueued q)
unfolding push_loop
push_loop-Delivered zero samples total_frames source_frame enqueued q blocks v le enough whole
      small =
    nothing_moved samples total_frames source_frame enqueued q blocks v
      (record { channels = refl; slot_frames = refl; slot_count = refl; consumed = refl }) refl
      (λ _. (
        ap (λ n. ok (record { enqueued = enqueued; dropped = n; published = q.published_sequence }))
            (omega arith),
        omega arith,
        omega arith,
      ))
push_loop-Delivered (suc fuel) samples total_frames source_frame enqueued q blocks v le enough whole
      small =
    elim (Bool-cases (ltb source_frame total_frames)) [
      | inl t ↦
          let more = ltb→lt source_frame total_frames t in
          rw (push_loop, t)
            (turn_then
              (λ source_frame' enqueued' q' bs c inside forward.
                push_loop-Delivered fuel samples total_frames source_frame' enqueued' q' bs c inside
                  (omega (arith, enough, forward)))
              (push_turn samples total_frames source_frame enqueued q) more
              (push_turn-PushEnds samples total_frames source_frame enqueued q blocks v more whole
                small))
      | inr f ↦
          let none_left = ltb_false→le source_frame total_frames f in
          rw (push_loop, f)
            (nothing_moved samples total_frames source_frame enqueued q blocks v
              (record { channels = refl; slot_frames = refl; slot_count = refl; consumed = refl })
              refl
              (λ _. (
                ap
                    (λ n. ok (record {
                      enqueued = enqueued;
                      dropped = n;
                      published = q.published_sequence;
                    }))
                    (omega arith),
                omega arith,
                omega arith,
              )))
    ]
  where
    turn_then :
        ((source_frame' enqueued' : ℕ) (q' : IngressQueue) (bs : List (List ℕ))
          → Carries q' bs
          → source_frame' ≤ total_frames
          → source_frame < source_frame'
          → length samples ≡ total_frames * q'.channels
          → length samples < u64_mod
          → Delivered samples total_frames source_frame' enqueued' q' bs
              (push_loop fuel samples total_frames source_frame' enqueued' q'))
        → (turn : PushTurn) → source_frame < total_frames
        → PushEnds samples total_frames source_frame enqueued q blocks turn
        → Delivered samples total_frames source_frame enqueued q blocks (elim turn [
          | pushed q' source_frame' enqueued' ↦
              push_loop fuel samples total_frames source_frame' enqueued' q'
          | returned q' result ↦ (q', result)
        ])
    turn_then rest (pushed q' source_frame' enqueued') more p =
        let (forward, inside, _) =
          turn_moves samples total_frames source_frame enqueued q blocks v more q' source_frame'
            enqueued' p in
        turn-Delivered samples total_frames source_frame enqueued q blocks v more q' source_frame'
          enqueued' p
          (rest source_frame' enqueued' q' _ p.carries inside forward
            (whole ∙ ap (λ c. total_frames * c) (sym p.shape.channels)) small)
    turn_then rest (returned q' result) more r =
        nothing_moved samples total_frames source_frame enqueued q blocks r.carries r.shape
          r.same_enqueued
          (λ room.
            let answer = r.answers room in
            let (full, _, _, dropped) = r.succeeds _ answer in
            (
              answer,
              dropped,
              sym (
                  ap (λ n. min (total_frames - source_frame) (n * q.slot_frames))
                    {x = length q.slots - length blocks} {y = 0} (omega (arith, full))
                  ∙ omega arith),
            ))
