-- ===== src/Worker.antt =====
-- src/capture_arena.rs: the worker that owns the two epochs, each a ring. It records into the
-- active one, and a freeze exchanges them. The samples that a calibration copies aside are not
-- modelled.
pub mod Commands
pub mod Tracking
pub mod Retiring
pub mod Freezing
pub mod Frozen
pub mod Releasing
pub mod Consuming
pub mod Process
pub mod Clearing
mod Tests
use last_audio_memory_buffer.Base.{
  ℕ, ◌+◌, ◌-◌, max, Bool, true, false, not, ◌||◌, if◌then◌else◌, ltb, leb, ◌==◌, List, Option, none,
  some, String, checked_add, sub_u64,
}
use last_audio_memory_buffer.Base.Error.{
  Result, ok, err, LambError, capture_invariant, control_invariant, export_invariant, ok_or, ◌>>=◌,
}
use last_audio_memory_buffer.Ring.{SampleRing, RingStatus, reset, clear}
use last_audio_memory_buffer.Ring.Write.{write_interleaved}
use last_audio_memory_buffer.Ring.Copy.{oldest_frame, status, copy_interleaved_range_into}
use last_audio_memory_buffer.Ingress.{
  IngressQueue, next_block, take_block, add_ingress_dropped, add_cumulative_dropped_frames,
}

-- An index into the two epochs.
pub data EpochIndex : Type 0 where
  epoch_0 epoch_1 : EpochIndex

-- `1 - index`
abbrev pub standby : EpochIndex → EpochIndex
standby epoch_0 = epoch_1
standby epoch_1 = epoch_0

abbrev pub same_index : EpochIndex → EpochIndex → Bool
same_index epoch_0 epoch_0 = true
same_index epoch_1 epoch_1 = true
same_index _ _ = false

-- `FrozenRecord`
pub record FrozenRecord : Type 0 where
  pub index : EpochIndex
  pub generation : ℕ

-- An epoch: its ring, and its entry of `bases`.
pub record Epoch : Type 0 where
  pub ring : SampleRing
  pub base : ℕ

-- `WorkerState`, with the counters of the shared queue that it moves.
pub record WorkerState : Type 0 where
  pub queue : IngressQueue
  pub first : Epoch
  pub second : Epoch
  pub active : EpochIndex
  pub absolute_head : ℕ
  pub next_generation : ℕ
  pub frozen : Option FrozenRecord
  pub retired_dropped_frames : ℕ
  pub retired_last_overrun : Option ℕ
  pub worker_written_frames : ℕ
  pub worker_dropped_frames : ℕ
  pub final_worker_dropped_frames : ℕ
  pub worker_fault : Option String
  pub channels : ℕ
  pub sample_rate : ℕ

abbrev pub at_index {ℓ} : {A : Type ℓ} → EpochIndex → A → A → A
at_index epoch_0 a b = a
at_index epoch_1 a b = b

-- `epochs[index]` and `bases[index]`
abbrev pub epoch : WorkerState → EpochIndex → Epoch
epoch s index = at_index index s.first s.second

abbrev pub set_epoch : EpochIndex → Epoch → WorkerState → WorkerState
set_epoch index e s = record s {
  first = at_index index e s.first;
  second = at_index index s.second e;
}

-- `drop_worker_frames`; `set_worker_fault` is the store of the fault.
unfoldable pub drop_worker_frames : ℕ → WorkerState → WorkerState
unfolding add_cumulative_dropped_frames
drop_worker_frames frames s =
    let counted = add_cumulative_dropped_frames frames s.queue in
    elim counted.1 [
      | err e ↦ record s {
        queue = counted.0;
        worker_fault = some "capture worker drop counter exhausted";
      }
      | ok _ ↦ elim (checked_add s.worker_dropped_frames frames) [
        | none ↦ record s {
          queue = counted.0;
          worker_fault = some "capture worker drop counter exhausted";
        }
        | some total ↦ record s {
          queue = counted.0;
          worker_dropped_frames = total;
          final_worker_dropped_frames = total;
        }
      ]
    ]

-- `consume_samples`, at the reading `now` of the clock.
unfoldable pub consume_samples : ℕ → List ℕ → ℕ → WorkerState → WorkerState
unfolding drop_worker_frames write_interleaved add_ingress_dropped
consume_samples now samples frames s = elim s.worker_fault [
  | some fault ↦ record s { queue = (add_ingress_dropped frames s.queue).0 }
  | none ↦ elim (checked_add s.absolute_head frames) [
    | none ↦ drop_worker_frames frames s
    | some next_absolute ↦ elim (checked_add s.worker_written_frames frames) [
      | none ↦ drop_worker_frames frames s
      | some next_written ↦
          let active = epoch s s.active in
          let wrote = write_interleaved now samples s.channels active.ring in
          let s' = set_epoch s.active (record active { ring = wrote.0 }) s in
          elim wrote.1 [
            | err e ↦ drop_worker_frames frames s'
            | ok _ ↦ record s' {
              absolute_head = next_absolute;
              worker_written_frames = next_written;
            }
          ]
    ]
  ]
]

-- `latest_overrun`: the maximum of those that are there.
unfoldable pub latest_overrun : Option ℕ → Option ℕ → Option ℕ
latest_overrun none second = second
latest_overrun (some a) none = some a
latest_overrun (some a) (some b) = some (max a b)

-- `retire_and_reset`
unfoldable pub retire_and_reset : EpochIndex → WorkerState → WorkerState × Result (Unit {0})
unfolding reset status latest_overrun
retire_and_reset index s =
    let before = status (epoch s index).ring in
    elim (checked_add s.retired_dropped_frames before.dropped_frames) [
      | none ↦ (s, err (control_invariant "cumulative dropped frame counter exhausted"))
      | some retired ↦
          let emptied = reset (epoch s index).ring in
          let s' = set_epoch index (record (epoch s index) { ring = emptied.0 }) s in
          elim emptied.1 [
            | err e ↦ (s', err e)
            | ok _ ↦ (
              record s' {
                retired_dropped_frames = retired;
                retired_last_overrun = latest_overrun s.retired_last_overrun before.last_overrun;
              },
              ok tt,
            )
          ]
    ]

-- The worker that `CaptureArena::start` spawns, with the rings and the queue that it made.
abbrev pub new_worker : IngressQueue → SampleRing → SampleRing → ℕ → ℕ → WorkerState
new_worker queue ring_0 ring_1 channels sample_rate = record {
  queue = queue;
  first = record { ring = ring_0; base = 0 };
  second = record { ring = ring_1; base = 0 };
  active = epoch_0;
  absolute_head = 0;
  next_generation = 1;
  frozen = none;
  retired_dropped_frames = 0;
  retired_last_overrun = none;
  worker_written_frames = 0;
  worker_dropped_frames = 0;
  final_worker_dropped_frames = 0;
  worker_fault = none;
  channels = channels;
  sample_rate = sample_rate;
}

-- `consume_one`: whether there was a block. A panic while the block is read ends the worker.
unfoldable pub consume_one : ℕ → WorkerState → WorkerState × Result Bool
unfolding consume_samples next_block take_block
consume_one now s = elim (next_block s.queue) [
  | none ↦ (s, ok false)
  | some next ↦ elim next [
    | err e ↦ (s, err e)
    | ok (samples, frames, sequence) ↦
        let s' = consume_samples now samples frames s in
        (record s' { queue = take_block s'.queue }, ok true)
  ]
]
