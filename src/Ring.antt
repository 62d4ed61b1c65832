-- ===== src/Ring.antt =====
-- src/sample_ring.rs: the ring of chunks that capture writes into, and its status operations.
-- Every operation that takes the `write_chunk` lock is one atomic function of the ring; the
-- children model writing, copying and snapshots. An `f32` is its bit pattern, since samples are
-- only moved. Locks are never poisoned here, and the clock's reading is an argument.
mod Tests
pub mod New
pub mod Write
pub mod Copy
pub mod Snapshot
pub mod Covering
pub mod Pinned
pub mod Arranging
pub mod Blocks
pub mod Holds
pub mod Advance
pub mod Turn
pub mod Recording
pub mod Writing
pub mod Oldest
pub mod Copying
pub mod Reading
pub mod Fresh
pub mod Reset
use last_audio_memory_buffer.Base.{
  ℕ, ◌-◌, ◌*◌, List, map, Bool, true, false, Option, none, some, length, any, ltb, ◌==◌, not,
  if◌then◌else◌, checked_add, mul_u64, ◌||◌,
}
use last_audio_memory_buffer.Base.Error.{
  Result, ok, err, LambError, control, capture_invariant, validation,
}

-- `ChunkState`
pub data ChunkState : Type 0 where
  writable writing published stale : ChunkState

abbrev pub is_published : ChunkState → Bool
is_published published = true
is_published _ = false

abbrev pub is_writing : ChunkState → Bool
is_writing writing = true
is_writing _ = false

-- `RingConfig`; `SampleFormat` has one value.
pub record RingConfig : Type 0 where
  pub channels : ℕ
  pub sample_rate : ℕ
  pub chunk_frames : ℕ
  pub chunk_count : ℕ
  pub max_active_snapshots : ℕ

-- `RingStatus`
pub record RingStatus : Type 0 where
  pub dropped_frames : ℕ
  pub retained_frames : ℕ
  pub capacity_frames : ℕ
  pub active_snapshots : ℕ
  pub last_overrun : Option ℕ

-- `Chunk`
pub record Chunk : Type 0 where
  pub sequence : ℕ
  pub state : ChunkState
  pub pin_count : ℕ
  pub valid_start_frame : ℕ
  pub valid_frame_count : ℕ
  pub buf : List ℕ

-- `SampleRing`, less its two byte counts, which `new` computes and nothing changes.
pub record SampleRing : Type 0 where
  pub cfg : RingConfig
  pub chunks : List Chunk
  pub write_chunk : ℕ
  pub global_write_frame : ℕ
  pub clear_after_frame : ℕ
  pub next_sequence : ℕ
  pub dropped_frames : ℕ
  pub active_snapshots : ℕ
  pub last_overrun : Option ℕ

-- `add_dropped_frames`, and `record_dropped_frames`, which only calls it.
unfoldable pub add_dropped_frames : ℕ → SampleRing → SampleRing × Result (Unit {0})
add_dropped_frames frames r = elim (checked_add r.dropped_frames frames) [
  | none ↦ (r, err (capture_invariant "dropped frame counter exhausted"))
  | some total ↦ (record r { dropped_frames = total }, ok tt)
]

-- `record_overrun`
unfoldable pub record_overrun : ℕ → ℕ → SampleRing → SampleRing × Result (Unit {0})
unfolding add_dropped_frames
record_overrun now frames r =
    let (r', result) = add_dropped_frames frames r in
    elim result [ err e ↦ (r', err e) | ok _ ↦ (record r' { last_overrun = some now }, ok tt) ]

-- `clear`
unfoldable pub clear : SampleRing → SampleRing
clear r = record r { clear_after_frame = r.global_write_frame }

abbrev pub reset_chunk : Chunk → Chunk
reset_chunk c = record c {
  sequence = 0;
  valid_start_frame = 0;
  valid_frame_count = 0;
  state = writable;
}

-- `reset`
unfoldable pub reset : SampleRing → SampleRing × Result (Unit {0})
reset r =
    if not (r.active_snapshots == 0) || any (λ (c : Chunk). not (c.pin_count == 0)) r.chunks
    then (r, err (control "cannot reset ring while a snapshot is active"))
    else if any (λ (c : Chunk). is_writing c.state) r.chunks
    then (r, err (control "cannot reset ring while a writer is active"))
    else (
      record r {
        chunks = map reset_chunk r.chunks;
        write_chunk = 0;
        global_write_frame = 0;
        clear_after_frame = 0;
        next_sequence = 1;
        dropped_frames = 0;
        last_overrun = none;
      },
      ok tt,
    )
