-- ===== src/Ingress.antt =====
-- src/capture_arena.rs: the queue between the capture callback, its single producer, and the
-- worker. The two run at the same time: a turn of the producer's loop and a take of the worker
-- each publish by one store at their end, so a history is a sequence of turns and takes.
mod Tests
pub mod Push
pub mod Carries
pub mod Filling
pub mod Ends
pub mod Turn
pub mod Loop
pub mod Admission
pub mod Delivery
pub mod Runs
pub mod Fifo
use last_audio_memory_buffer.Base.{
  ℕ, zero, suc, ◌+◌, ◌-◌, ◌*◌, ◌%◌, min, Bool, true, false, not, ◌||◌, if◌then◌else◌, ltb, leb,
  ◌==◌, List, [], ◌∷◌, length, replicate, get_elem?, set, take, Option, none, some, String,
  checked_add, checked_mul, checked_sub, add_u64, u32_mod, slice?,
}
use last_audio_memory_buffer.Base.Error.{
  Result, ok, err, panic, capture_invariant, validation, ◌>>=◌, ◌>>◌, ok_or, require,
}
use last_audio_memory_buffer.Ring.New.{new_zeroed}

-- `IngressSlotStorage`
pub record IngressSlot : Type 0 where
  pub frames : ℕ
  pub samples : List ℕ

pub record IngressQueue : Type 0 where
  pub slots : List IngressSlot
  pub channels : ℕ
  pub slot_frames : ℕ
  pub published_sequence : ℕ
  pub consumed_sequence : ℕ
  pub enqueued_frames : ℕ
  pub dropped_frames : ℕ
  pub cumulative_dropped_frames : ℕ
  pub drop_counter_exhausted : Bool
  pub producer_admission : ℕ
  pub producer_generation : ℕ
  pub producer_generation_exhausted : Bool

-- `PRODUCER_OPEN`, the highest bit of the admission word; the bits below it count producers.
abbrev pub producer_open : ℕ
producer_open = 9223372036854775808

-- `CapturePushOutcome`
pub record CapturePushOutcome : Type 0 where
  pub enqueued : ℕ
  pub dropped : ℕ
  pub published : ℕ

-- The slots from index `i` on; `grants` are the allocator's answers.
unfoldable pub new_slots : (ℕ → Bool) → ℕ → ℕ → ℕ → Result (List IngressSlot)
unfolding new_zeroed
new_slots grants samples_per_slot zero i = ok []
new_slots grants samples_per_slot (suc n) i = do
  samples ← new_zeroed (grants i) samples_per_slot
  slots ← new_slots grants samples_per_slot n (i + 1)
  ok (record { frames = 0; samples = samples } ∷ slots)

-- `IngressQueue::new`. Touching the pages of a slot changes no sample.
unfoldable pub new_queue : Bool → (ℕ → Bool) → ℕ → ℕ → ℕ → Result IngressQueue
unfolding new_slots
new_queue grants_index grants slot_count slot_frames channels = do
  samples_per_slot ←
      ok_or (checked_mul slot_frames channels)
        (validation "capture queue slot sample count overflow")
  require grants_index (validation "unable to allocate exact array")
  slots ← new_slots grants samples_per_slot slot_count 0
  ok (record {
    slots = slots;
    channels = channels;
    slot_frames = slot_frames;
    published_sequence = 0;
    consumed_sequence = 0;
    enqueued_frames = 0;
    dropped_frames = 0;
    cumulative_dropped_frames = 0;
    drop_counter_exhausted = false;
    producer_admission = producer_open;
    producer_generation = 0;
    producer_generation_exhausted = false;
  })

abbrev pub exhausted : String
exhausted = "cumulative capture dropped frame counter exhausted"

-- `add_enqueued_frames`, by `checked_atomic_add`, which leaves a counter that would overflow.
unfoldable pub add_enqueued_frames : ℕ → IngressQueue → IngressQueue × Result (Unit {0})
add_enqueued_frames frames q = elim (checked_add q.enqueued_frames frames) [
  | none ↦ (q, err (capture_invariant "capture ingress enqueued frame counter exhausted"))
  | some total ↦ (record q { enqueued_frames = total }, ok tt)
]

unfoldable pub add_cumulative_dropped_frames : ℕ → IngressQueue → IngressQueue × Result (Unit {0})
add_cumulative_dropped_frames frames q =
    if q.drop_counter_exhausted
    then (q, err (capture_invariant exhausted))
    else elim (checked_add q.cumulative_dropped_frames frames) [
      | none ↦ (record q { drop_counter_exhausted = true }, err (capture_invariant exhausted))
      | some total ↦ (record q { cumulative_dropped_frames = total }, ok tt)
    ]

-- `IngressQueue::add_dropped_frames`
unfoldable pub add_ingress_dropped : ℕ → IngressQueue → IngressQueue × Result (Unit {0})
unfolding add_cumulative_dropped_frames
add_ingress_dropped frames q =
    let counted = add_cumulative_dropped_frames frames q in
    elim counted.1 [
      | err e ↦ (counted.0, err e)
      | ok _ ↦ elim (checked_add counted.0.dropped_frames frames) [
        | none ↦ (
          record counted.0 { drop_counter_exhausted = true },
          err (capture_invariant "capture ingress dropped frame counter exhausted"),
        )
        | some total ↦ (record counted.0 { dropped_frames = total }, ok tt)
      ]
    ]

-- `consume_next` up to its callback: the block at the head, its frames and its sequence number.
unfoldable pub next_block : IngressQueue → Option (Result (List ℕ × ℕ × ℕ))
next_block q =
    if leb q.published_sequence q.consumed_sequence
    then none
    else elim (get_elem? q.slots (q.consumed_sequence % length q.slots)) [
      | none ↦ some (err panic)
      | some slot ↦ elim (slice? slot.samples 0 (slot.frames * q.channels)) [
        | none ↦ some (err panic)
        | some block ↦ some (ok (block, slot.frames, q.consumed_sequence))
      ]
    ]

-- `consume_next` after its callback: the store that gives the slot back.
unfoldable pub take_block : IngressQueue → IngressQueue
take_block q = record q { consumed_sequence = add_u64 q.consumed_sequence 1 }

-- `ProducerAdmission::acquire`: the exchange is retried until no other change comes between.
unfoldable pub acquire_admission : IngressQueue → IngressQueue × Result (Unit {0})
acquire_admission q =
    if ltb q.producer_admission producer_open
    then (q, err (capture_invariant "capture ingress is closed"))
    else if q.producer_admission % producer_open == producer_open - 1
    then (q, err (capture_invariant "capture producer count exhausted"))
    else (record q { producer_admission = q.producer_admission + 1 }, ok tt)

-- `Drop` of a `ProducerAdmission`; `fetch_sub` wraps. The updates of the generation and of the
-- admission word are one step here.
unfoldable pub drop_admission : IngressQueue → IngressQueue
drop_admission q =
    let admission = add_u64 q.producer_admission 18446744073709551615 in
    elim (checked_add q.producer_generation 1) [
      | none ↦ record q { producer_generation_exhausted = true; producer_admission = admission }
      | some next ↦ record q { producer_generation = next; producer_admission = admission }
    ]

unfoldable pub close_producer_admission : IngressQueue → IngressQueue
close_producer_admission q = record q { producer_admission = q.producer_admission % producer_open }

unfoldable pub admitted_producers : IngressQueue → ℕ
admitted_producers q = q.producer_admission % producer_open

-- `calibration_boundary`: the queue at its first and at its second reading, where
-- the first reading loads all its counters at once.
unfoldable pub calibration_boundary : IngressQueue → IngressQueue → Result (Option (ℕ × ℕ))
unfolding admitted_producers
calibration_boundary q later =
    if q.producer_generation_exhausted
    then err (capture_invariant "capture producer generation exhausted")
    else if not (admitted_producers q == 0)
    then ok none
    else if not (admitted_producers later == 0)
        || not (later.producer_generation == q.producer_generation)
    then ok none
    else ok (some (q.published_sequence, q.cumulative_dropped_frames))
