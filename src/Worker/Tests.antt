-- ===== src/Worker/Tests.antt =====
-- A mono worker on two rings of two chunks of two frames, and the theorems about it at it.
use last_audio_memory_buffer.Base.{
  ℕ, ◌+◌, ◌*◌, ◌≡◌, ◌-◌, ◌%◌, zero, suc, ap, sym, subst, length, get_elem?, refl, List, [], ◌∷◌,
  ◌++◌, min, drop, slice, none, some, true, false, arith, checked_mul, checked_add, checked_sub,
  div_ceil, slice?, mul_u64, splice?, add_u32, add_u64,
}
use last_audio_memory_buffer.Base.Error.{ok}
use last_audio_memory_buffer.Memory.{ring_metadata_budget, total}
use last_audio_memory_buffer.Ring.{RingConfig, SampleRing}
use last_audio_memory_buffer.Ring.Write.{write_interleaved, write_turn}
use last_audio_memory_buffer.Ring.Copy.{oldest_frame}
use last_audio_memory_buffer.Ring.New.{fresh_chunk, new, new_chunks}
use last_audio_memory_buffer.Ring.Fresh.{new-Holds}
use last_audio_memory_buffer.Ingress.Carries.{Carries, HoldsBlock}
use last_audio_memory_buffer.Ingress.{IngressSlot, IngressQueue, producer_open}
use last_audio_memory_buffer.Worker.{
  WorkerState, epoch, standby, new_worker, consume_samples, consume_one,
}
use last_audio_memory_buffer.Worker.Commands.{freeze, release, copy_frozen}
use last_audio_memory_buffer.Worker.Tracking.{Sound, Tracks, HasRoom, consume-Tracks}
use last_audio_memory_buffer.Worker.Retiring.{frozen_start}
use last_audio_memory_buffer.Worker.Freezing.{Freezes, freeze_lem}
use last_audio_memory_buffer.Worker.Frozen.{capability, consume_all, copy-freeze}
use last_audio_memory_buffer.Worker.Releasing.{Releases, release_lem}
use last_audio_memory_buffer.Worker.Process.{CaptureClearAccounting, clear_active}
use last_audio_memory_buffer.Worker.Clearing.{Clears, clear_lem}
use last_audio_memory_buffer.Worker.Consuming.{Consumes, consume_one-Tracks, new_worker-Tracks}

abbrev mono_cfg : RingConfig
mono_cfg = record {
  channels = 1;
  sample_rate = 48000;
  chunk_frames = 2;
  chunk_count = 2;
  max_active_snapshots = 1;
}

abbrev mono : SampleRing
mono = record {
  cfg = mono_cfg;
  chunks = fresh_chunk (0 ∷ 0 ∷ []) ∷ fresh_chunk (0 ∷ 0 ∷ []) ∷ [];
  write_chunk = 0;
  global_write_frame = 0;
  clear_after_frame = 0;
  next_sequence = 1;
  dropped_frames = 0;
  active_snapshots = 0;
  last_overrun = none;
}

new-mono : (metadata : ℕ) × (new 4096 true (λ _. true) mono_cfg ≡ ok (mono, 16, metadata))
unfolding new checked_mul new_chunks checked_add ring_metadata_budget div_ceil checked_sub total
new-mono = (_, refl)

mono-Sound : Sound 1 mono []
mono-Sound =
    let (holds, unpinned, _) =
      new-Holds 4096 true (λ _. true) mono_cfg (omega arith) (omega arith) new-mono.1 in
    record { holds = holds; unpinned = unpinned; inactive = refl; same_channels = refl }

-- One slot, which holds the block of a producer.
abbrev one_block : IngressQueue
one_block = record {
  slots = record { frames = 2; samples = 31 ∷ 32 ∷ [] } ∷ [];
  channels = 1;
  slot_frames = 2;
  published_sequence = 1;
  consumed_sequence = 0;
  enqueued_frames = 2;
  dropped_frames = 0;
  cumulative_dropped_frames = 0;
  drop_counter_exhausted = false;
  producer_admission = producer_open;
  producer_generation = 1;
  producer_generation_exhausted = false;
}

abbrev fresh_worker : WorkerState
fresh_worker = new_worker one_block mono mono 1 48000

fresh-Tracks : Tracks fresh_worker []
fresh-Tracks = new_worker-Tracks one_block mono mono 1 48000 mono-Sound mono-Sound refl

some-injective : {a b : List ℕ} → some a ≡ some b → a ≡ b
some-injective e = cc

abbrev three : List ℕ
three = 11 ∷ 12 ∷ 13 ∷ []

three_room : HasRoom fresh_worker 3
three_room = record {
  positions = omega arith;
  written = omega arith;
  sequences = omega arith;
  drops = omega arith;
}

three_consumed :
    Tracks (consume_samples 7 three 3 fresh_worker) three
    × ((consume_samples 7 three 3 fresh_worker).absolute_head ≡ 3)
    × ((consume_samples 7 three 3 fresh_worker).worker_written_frames ≡ 3)
    × ((consume_samples 7 three 3 fresh_worker).worker_dropped_frames ≡ 0)
    × ((consume_samples 7 three 3 fresh_worker).worker_fault ≡ none)
three_consumed =
    consume-Tracks 7 three 3 fresh_worker [] fresh-Tracks refl refl (omega arith) three_room

-- The worker after three frames.
abbrev running : WorkerState
running = consume_samples 7 three 3 fresh_worker

running_head : running.absolute_head ≡ 3
running_head = three_consumed.1

running_fields :
    (running.frozen ≡ none)
    × (running.next_generation ≡ 1)
    × (running.retired_dropped_frames + (epoch running (standby running.active)).ring.dropped_frames
        ≡ 0)
    × (frozen_start none running ≡ 0)
unfolding consume_samples write_interleaved write_turn checked_add checked_sub slice? mul_u64
    splice? slice add_u32 add_u64 oldest_frame
running_fields = (refl, refl, refl, refl)

running_channels : running.channels ≡ 1
unfolding consume_samples write_interleaved write_turn checked_add checked_sub slice? mul_u64
    splice? slice add_u32 add_u64 oldest_frame
running_channels = refl

freeze_example : Freezes running three none (freeze none running)
freeze_example =
    freeze_lem running three three_consumed.0 none running_fields.0 (omega (arith, running_head))
      (omega (arith, running_fields.1)) (omega (arith, running_fields.2))

-- The copy of three frozen frames, after two more were consumed.
copy-freeze_example :
    copy_frozen (capability none 2 running) 0 3 (0 ∷ 0 ∷ 0 ∷ []) (
      consume_all
        (record { now = 8; samples = 14 ∷ 15 ∷ []; frames = 2 } ∷ [])
        (freeze none running).0)
    ≡ (
      slice three (0 * running.channels) (min (3 - 0) 3 * running.channels)
          ++ drop (min (3 - 0) 3 * running.channels) (0 ∷ 0 ∷ 0 ∷ []),
      ok (min (3 - 0) 3),
    )
copy-freeze_example =
    copy-freeze running three three_consumed.0 none 2 (omega (arith, running_head)) 0 3 3
      (0 ∷ 0 ∷ 0 ∷ []) (omega (arith, running_fields.3)) (omega arith) (omega (arith, running_head))
      (omega (arith, running_channels)) (omega arith) (omega arith) running_fields.0
      (omega (arith, running_fields.1)) (omega (arith, running_fields.2))
      (record { now = 8; samples = 14 ∷ 15 ∷ []; frames = 2 } ∷ [])

frozen_fields :
    ((freeze none running).0.frozen
      ≡ some (record { index = standby (freeze none running).0.active; generation = 2 }))
    × ((freeze none running).0.retired_dropped_frames
          + (epoch
              (freeze none running).0
              (standby (freeze none running).0.active)).ring.dropped_frames
        ≡ 0)
unfolding freeze consume_samples write_interleaved write_turn checked_add checked_sub slice? mul_u64
    splice? slice add_u32 add_u64 oldest_frame
frozen_fields = (refl, refl)

release_example :
    Releases
      (freeze none running).0
      three
      (release (standby (freeze none running).0.active) 2 (freeze none running).0)
release_example =
    release_lem (freeze none running).0 three freeze_example.tracks 2 frozen_fields.0
      (omega (arith, frozen_fields.1))

one_block-Carries : Carries one_block ((31 ∷ 32 ∷ []) ∷ [])
one_block-Carries = record {
  some_slots = omega arith;
  some_channels = omega arith;
  some_frames = omega arith;
  frames_u32 = omega arith;
  span = refl;
  room = omega arith;
  counted = omega arith;
  sizes = sized;
  block = at;
}
  where
    sized :
        (i : ℕ) (slot : IngressSlot)
        → get_elem? one_block.slots i ≡ some slot
        → length slot.samples ≡ 2
    sized zero slot e =
        let same : record { frames = 2; samples = 31 ∷ 32 ∷ [] } ≡ slot = cc in
        ap (λ (t : IngressSlot). length t.samples) (sym same)
    sized (suc i) slot e = absurd cc

    at :
        (k : ℕ) (b : List ℕ)
        → get_elem? ((31 ∷ 32 ∷ []) ∷ []) k ≡ some b
        → (slot : IngressSlot) × (get_elem? one_block.slots ((0 + k) % 1) ≡ some slot)
          × HoldsBlock one_block slot b
    at zero b e = (
      record { frames = 2; samples = 31 ∷ 32 ∷ [] },
      refl,
      subst (HoldsBlock one_block (record { frames = 2; samples = 31 ∷ 32 ∷ [] }))
          (some-injective e) (record { whole = refl; fits = omega arith; copied = refl }),
    )
    at (suc k) b e = absurd cc

consume_one-Tracks_example :
    Consumes fresh_worker [] (31 ∷ 32 ∷ []) 2 [] (consume_one 7 fresh_worker)
consume_one-Tracks_example =
    consume_one-Tracks 7 fresh_worker [] (31 ∷ 32 ∷ []) 2 [] fresh-Tracks one_block-Carries refl
      refl (omega arith) refl
      (record {
        positions = omega arith;
        written = omega arith;
        sequences = omega arith;
        drops = omega arith;
      })

abbrev accounting : CaptureClearAccounting
accounting = record {
  arena_runtime_id = 1;
  coordinator_id = 2;
  clear_id = 3;
  expected_active_start = 1;
  pending_retention_lost_frames = 4;
  pending_cleared_frames = 5;
}

clear_example : Clears running three 0 accounting (clear_active 0 accounting running)
clear_example =
    clear_lem running three three_consumed.0 0 accounting (omega (arith, running_head))
      (omega (arith, running_head)) (omega (arith, running_head)) (omega (arith, three_consumed.3))
      (omega (arith, running_head))
