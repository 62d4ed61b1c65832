-- ===== src/Ingress/Push.antt =====
-- `IngressQueue::try_push`: a turn of its loop, the loop, and the call around it.
use last_audio_memory_buffer.Base.{
  ℕ, zero, suc, ◌+◌, ◌-◌, ◌/◌, ◌%◌, min, true, false, not, ◌||◌, if◌then◌else◌, ltb, leb, ◌==◌,
  List, length, get_elem?, set, none, some, checked_add, checked_mul, checked_sub, slice?, splice?,
  u32_mod,
}
use last_audio_memory_buffer.Base.Error.{Result, ok, err, panic, capture_invariant}
use last_audio_memory_buffer.Ingress.{
  IngressQueue, CapturePushOutcome, exhausted, add_enqueued_frames, add_ingress_dropped,
  acquire_admission, drop_admission,
}

-- How a turn ends: the loop goes on at another source frame, or the call returns.
pub data PushTurn : Type 0 where
  pushed : IngressQueue → ℕ → ℕ → PushTurn
  returned : IngressQueue → Result CapturePushOutcome → PushTurn

-- The copy into the slot at the head, and the store that publishes it. The offsets are checked
-- first.
unfoldable pub fill_slot : List ℕ → ℕ → ℕ → ℕ → ℕ → IngressQueue → PushTurn
fill_slot samples source_frame enqueued frames next_published q =
    elim (checked_mul source_frame q.channels) [
      | none ↦ returned q (err (capture_invariant "capture queue source offset overflow"))
      | some source_start ↦ elim (checked_mul frames q.channels) [
        | none ↦ returned q (err (capture_invariant "capture queue sample count overflow"))
        | some sample_count ↦ elim (slice? samples source_start sample_count) [
          | none ↦ returned q (err panic)
          | some source ↦ elim (get_elem? q.slots (q.published_sequence % length q.slots)) [
            | none ↦ returned q (err panic)
            | some slot ↦ elim (splice? slot.samples 0 source) [
              | none ↦ returned q (err panic)
              | some filled ↦
                  pushed
                    (record q {
                      slots =
                          set q.slots (q.published_sequence % length q.slots)
                            (record { frames = frames % u32_mod; samples = filled });
                      published_sequence = next_published;
                    })
                    (source_frame + frames) (enqueued + frames)
            ]
          ]
        ]
      ]
    ]

-- The drop of what is left of the input, when the queue is full.
unfoldable pub drop_rest : ℕ → ℕ → IngressQueue → PushTurn
unfolding add_ingress_dropped
drop_rest rest enqueued q =
    let counted = add_ingress_dropped rest q in
    elim counted.1 [
      | err e ↦ returned counted.0 (err e)
      | ok _ ↦
          returned counted.0
            (ok (record { enqueued = enqueued; dropped = rest; published = q.published_sequence }))
    ]

-- One turn of the loop, at `source_frame < total_frames`.
unfoldable pub push_turn : List ℕ → ℕ → ℕ → ℕ → IngressQueue → PushTurn
unfolding fill_slot drop_rest add_enqueued_frames
push_turn samples total_frames source_frame enqueued q =
    elim (checked_sub q.published_sequence q.consumed_sequence) [
      | none ↦ returned q (err (capture_invariant "capture queue sequence invariant failed"))
      | some queued ↦
          if leb (length q.slots) queued
          then drop_rest (total_frames - source_frame) enqueued q
          else let frames = min (total_frames - source_frame) q.slot_frames in
            elim (checked_add q.published_sequence 1) [
              | none ↦ returned q (err (capture_invariant "capture queue sequence exhausted"))
              | some next_published ↦
                  let counted = add_enqueued_frames frames q in
                  elim counted.1 [
                    | err e ↦ returned counted.0 (err e)
                    | ok _ ↦ fill_slot samples source_frame enqueued frames next_published counted.0
                  ]
            ]
    ]

-- The loop, on fuel, while the worker takes nothing. Each turn moves by a frame or, where slots
-- have no frames, fills a slot, so `total_frames` and the number of slots together are enough.
unfoldable pub push_loop :
    ℕ → List ℕ → ℕ → ℕ → ℕ → IngressQueue → IngressQueue × Result CapturePushOutcome
push_loop zero samples total_frames source_frame enqueued q =
    (q, ok (record { enqueued = enqueued; dropped = 0; published = q.published_sequence }))
push_loop (suc fuel) samples total_frames source_frame enqueued q =
    elim (ltb source_frame total_frames) [
      | false ↦
          (q, ok (record { enqueued = enqueued; dropped = 0; published = q.published_sequence }))
      | true ↦ elim (push_turn samples total_frames source_frame enqueued q) [
        | pushed q' source_frame' enqueued' ↦
            push_loop fuel samples total_frames source_frame' enqueued' q'
        | returned q' result ↦ (q', result)
      ]
    ]

-- The guards of `try_push`, and the number of frames of the input.
unfoldable pub push_guards : List ℕ → ℕ → IngressQueue → Result ℕ
push_guards samples channels q =
    if q.drop_counter_exhausted
    then err (capture_invariant exhausted)
    else if not (channels == q.channels)
    then err (capture_invariant "incoming channels do not match capture ingress channels")
    else if channels == 0 || not (length samples % channels == 0)
    then err (capture_invariant "input sample length is not whole frames")
    else ok (length samples / channels)

unfoldable pub try_push : List ℕ → ℕ → IngressQueue → IngressQueue × Result CapturePushOutcome
unfolding push_guards push_loop
try_push samples channels q = elim (push_guards samples channels q) [
  | err e ↦ (q, err e)
  | ok total_frames ↦ push_loop (total_frames + length q.slots) samples total_frames 0 0 q
]

-- `CaptureIngress::try_push_interleaved`; waking the worker changes nothing of the queue.
unfoldable pub try_push_interleaved :
    List ℕ → ℕ → IngressQueue → IngressQueue × Result CapturePushOutcome
unfolding acquire_admission try_push drop_admission
try_push_interleaved samples channels q =
    let admitted = acquire_admission q in
    elim admitted.1 [
      | err e ↦ (admitted.0, err e)
      | ok _ ↦ let out = try_push samples channels admitted.0 in (drop_admission out.0, out.1)
    ]
