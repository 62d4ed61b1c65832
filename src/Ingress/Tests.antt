-- ===== src/Ingress/Tests.antt =====
-- Runs of the ingress queue on concrete inputs, and the theorems about it at them.
use last_audio_memory_buffer.Base.{
  ℕ, ◌≡◌, ◌≤◌, refl, List, [], ◌∷◌, Bool, true, false, ◌<◌, u64_mod, checked_sub, checked_add,
  checked_mul, slice?, splice?, slice, add_u64, none, arith,
}
use last_audio_memory_buffer.Base.Error.{ok, err, capture_invariant}
use last_audio_memory_buffer.Ingress.{
  IngressQueue, new_queue, acquire_admission, drop_admission, close_producer_admission,
  admitted_producers, producer_open,
}
use last_audio_memory_buffer.Ingress.Push.{push_turn, try_push_interleaved}
use last_audio_memory_buffer.Ingress.Admission.{
  AdmissionRun, here, step, admitted, left, closed, admitted_producers_lem, close-final,
}
use last_audio_memory_buffer.Ingress.Delivery.{Delivers, room_for, try_push_interleaved_lem}
use last_audio_memory_buffer.Ingress.Runs.{
  IngressState, IngressEvent, call_push, turn, consume, ingress_step, Refines, Represents,
  ingress_step-Refines, quiet, enqueues, dequeues,
}
use last_audio_memory_buffer.Ingress.Fifo.{
  Queues, ingress_run, ingress_run_lem, new_queue-Represents,
}

-- Two slots of two frames, one channel.
abbrev two_slots : IngressQueue
two_slots = record {
  slots =
      record { frames = 0; samples = 0 ∷ 0 ∷ [] }
      ∷ record { frames = 0; samples = 0 ∷ 0 ∷ [] }
      ∷ [];
  channels = 1;
  slot_frames = 2;
  published_sequence = 0;
  consumed_sequence = 0;
  enqueued_frames = 0;
  dropped_frames = 0;
  cumulative_dropped_frames = 0;
  drop_counter_exhausted = false;
  producer_admission = producer_open;
  producer_generation = 0;
  producer_generation_exhausted = false;
}

abbrev all_granted : ℕ → Bool
all_granted i = true

abbrev idle : IngressState
idle = record { queue = two_slots; call = none }

two_slots-new : new_queue true all_granted 2 2 1 ≡ ok two_slots
unfolding new_queue checked_mul
two_slots-new = refl

two_slots-Represents : Represents idle 2 []
two_slots-Represents =
    new_queue-Represents true all_granted 2 2 1 two_slots (omega arith) (omega arith) (omega arith)
      (omega arith) two_slots-new

abbrev five_samples : List ℕ
five_samples = 11 ∷ 12 ∷ 13 ∷ 14 ∷ 15 ∷ []

-- Four frames fit, and the fifth is dropped.
five_pushed :
    (try_push_interleaved five_samples 1 two_slots).1
    ≡ ok (record { enqueued = 4; dropped = 1; published = 2 })
unfolding try_push_interleaved checked_sub checked_add checked_mul slice? splice? slice add_u64
    push_turn
five_pushed = refl

try_push_interleaved_example :
    Delivers two_slots five_samples [] 5
      (room_for two_slots 0 5)
      (try_push_interleaved five_samples 1 two_slots)
try_push_interleaved_example =
    try_push_interleaved_lem five_samples two_slots [] 5 two_slots-Represents.carries (omega arith)
      (ground arith) refl (omega arith)
      (record {
        publishes = omega arith;
        enqueues = omega arith;
        drops = omega arith;
        cumulates = omega arith;
        not_exhausted = refl;
      })

-- A call whose turns the worker's takes interrupt.
abbrev interleaved : List IngressEvent
interleaved = call_push five_samples 1 ∷ turn ∷ consume ∷ turn ∷ turn ∷ consume ∷ []

interleaved_seen :
    (ingress_run interleaved idle).1
    ≡ quiet
      ∷ enqueues (11 ∷ 12 ∷ [])
      ∷ dequeues (11 ∷ 12 ∷ [])
      ∷ enqueues (13 ∷ 14 ∷ [])
      ∷ enqueues (15 ∷ [])
      ∷ dequeues (13 ∷ 14 ∷ [])
      ∷ []
unfolding ingress_run checked_sub checked_add checked_mul slice? splice? slice add_u64
interleaved_seen = refl

ingress_run_example : Queues 2 [] (ingress_run interleaved idle)
ingress_run_example =
    ingress_run_lem true all_granted 2 2 1 two_slots interleaved (omega arith) (omega arith)
      (omega arith) (omega arith) two_slots-new (omega arith, (tt, (tt, (tt, (tt, (tt, tt))))))

ingress_step-Refines_example : Refines 2 [] (ingress_step (call_push five_samples 1) idle)
ingress_step-Refines_example =
    ingress_step-Refines (call_push five_samples 1) idle 2 [] two_slots-Represents (omega arith)

-- A producer comes, the ingress is closed, and the producer leaves.
abbrev one_inside : IngressQueue
one_inside = (acquire_admission two_slots).0

two_slots-counts : admitted_producers two_slots ≡ 0
unfolding admitted_producers
two_slots-counts = refl

one_inside-counts : admitted_producers one_inside ≡ 1
unfolding admitted_producers acquire_admission
one_inside-counts = refl

one_inside-small : one_inside.producer_admission < u64_mod
unfolding acquire_admission
one_inside-small = omega arith

come_and_close : AdmissionRun two_slots 0 (close_producer_admission one_inside) 1
unfolding acquire_admission
come_and_close = step (admitted refl) (step closed here)

admitted_producers_example :
    (admitted_producers (close_producer_admission one_inside) ≡ 1)
    × ((close_producer_admission one_inside).producer_admission < u64_mod)
admitted_producers_example =
    admitted_producers_lem two_slots (close_producer_admission one_inside) 0 1 two_slots-counts
      (omega arith) come_and_close

close-final_example :
    (admitted_producers (drop_admission (close_producer_admission one_inside)) ≤ 1)
    × (acquire_admission (drop_admission (close_producer_admission one_inside)) ≡ (
      drop_admission (close_producer_admission one_inside),
      err (capture_invariant "capture ingress is closed"),
    ))
close-final_example =
    close-final one_inside (drop_admission (close_producer_admission one_inside)) 1 0
      one_inside-counts one_inside-small (step (left 0 refl) here)
