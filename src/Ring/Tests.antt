-- ===== src/Ring/Tests.antt =====
-- A small stereo ring of three chunks of two frames, and a recording on it.
use last_audio_memory_buffer.Base.{
  ℕ, max, ◌-◌, ◌+◌, ◌≤◌, ◌≡◌, refl, inl, List, [], ◌∷◌, none, true, arith, checked_mul, checked_add,
  checked_sub, div_ceil, slice?, mul_u64, splice?, slice, add_u32, add_u64, take, ◌*◌,
}
use last_audio_memory_buffer.Base.Error.{ok, err, control, export_invariant}
use last_audio_memory_buffer.Ring.{RingConfig, SampleRing, clear, reset}
use last_audio_memory_buffer.Ring.New.{fresh_chunk, new, new_chunks}
use last_audio_memory_buffer.Ring.Write.{write_interleaved, write_turn}
use last_audio_memory_buffer.Ring.Copy.{oldest_frame, copy_interleaved_range_into}
use last_audio_memory_buffer.Ring.Holds.{Holds}
use last_audio_memory_buffer.Ring.Recording.{IsUnpinned}
use last_audio_memory_buffer.Ring.Writing.{
  write_complete, write-accounts, write-moves, write-records,
}
use last_audio_memory_buffer.Ring.Fresh.{new-Holds}
use last_audio_memory_buffer.Ring.Arranging.{finish_snapshot-Tiles}
use last_audio_memory_buffer.Ring.Reset.{reset-Holds, clear-Holds}
use last_audio_memory_buffer.Ring.Oldest.{oldest_frame_lem}
use last_audio_memory_buffer.Ring.Reading.{copy-exact, copy-refuses, copy-write}
use last_audio_memory_buffer.Memory.{ring_metadata_budget, total}
use last_audio_memory_buffer.Ring.Snapshot.{SnapshotSegment, finish_snapshot}
use last_audio_memory_buffer.Ring.{published}
use last_audio_memory_buffer.Ring.Pinned.{KeepsPinned, write-KeepsPinned}

abbrev tiny_cfg : RingConfig
tiny_cfg = record {
  channels = 2;
  sample_rate = 48000;
  chunk_frames = 2;
  chunk_count = 3;
  max_active_snapshots = 1;
}

abbrev tiny : SampleRing
tiny = record {
  cfg = tiny_cfg;
  chunks =
      fresh_chunk (0 ∷ 0 ∷ 0 ∷ 0 ∷ [])
      ∷ fresh_chunk (0 ∷ 0 ∷ 0 ∷ 0 ∷ [])
      ∷ fresh_chunk (0 ∷ 0 ∷ 0 ∷ 0 ∷ [])
      ∷ [];
  write_chunk = 0;
  global_write_frame = 0;
  clear_after_frame = 0;
  next_sequence = 1;
  dropped_frames = 0;
  active_snapshots = 0;
  last_overrun = none;
}

new-tiny : new 4096 true (λ _. true) tiny_cfg ≡ ok (tiny, 48, 32720)
unfolding new checked_mul new_chunks checked_add ring_metadata_budget div_ceil checked_sub total
new-tiny = refl

tiny-Holds : Holds tiny [] × IsUnpinned tiny × (48 ≡ 3 * (2 * 2 * 4))
tiny-Holds = new-Holds 4096 true (λ _. true) tiny_cfg (omega arith) (omega arith) new-tiny

-- Five frames for a ring of six, so that the third chunk is begun.
abbrev five_frames : List ℕ
five_frames = 1 ∷ 2 ∷ 3 ∷ 4 ∷ 5 ∷ 6 ∷ 7 ∷ 8 ∷ 9 ∷ 10 ∷ []

abbrev four_frames : List ℕ
four_frames = 1 ∷ 2 ∷ 3 ∷ 4 ∷ 5 ∷ 6 ∷ 7 ∷ 8 ∷ []

recorded-Holds : Holds (write_interleaved 7 five_frames 2 tiny).0 five_frames
recorded-Holds =
    (write_complete 7 five_frames 5 (omega arith) tiny [] tiny-Holds.0 refl (omega arith)
      (omega arith) (omega arith) tiny-Holds.1).1

recorded_head : (write_interleaved 7 five_frames 2 tiny).0.global_write_frame ≡ 5
recorded_head =
    write-moves 7 five_frames 5 (omega arith) tiny [] tiny-Holds.0 refl (omega arith) (omega arith)
      (omega arith) tiny-Holds.1

recorded_oldest : oldest_frame (write_interleaved 7 five_frames 2 tiny).0 ≡ 0
unfolding oldest_frame write_interleaved write_turn checked_add slice? mul_u64 splice? slice add_u32
    add_u64
recorded_oldest = refl

reset-tiny : (reset tiny).1 ≡ ok tt
unfolding reset
reset-tiny = refl

reset-pinned :
    (reset (record tiny { active_snapshots = 1 })).1
    ≡ err (control "cannot reset ring while a snapshot is active")
unfolding reset
reset-pinned = refl

write-complete_example :
    ((write_interleaved 7 five_frames 2 tiny).1 ≡ ok tt)
    × Holds (write_interleaved 7 five_frames 2 tiny).0 five_frames
    × ((write_interleaved 7 five_frames 2 tiny).0.dropped_frames ≡ 0)
write-complete_example =
    write_complete 7 five_frames 5 (omega arith) tiny [] tiny-Holds.0 refl (omega arith)
      (omega arith) (omega arith) tiny-Holds.1

write-accounts_example :
    ((write_interleaved 7 five_frames 2 tiny).1 ≡ ok tt)
    × ((write_interleaved 7 five_frames 2 tiny).0.global_write_frame
          + (write_interleaved 7 five_frames 2 tiny).0.dropped_frames
        ≡ 5)
write-accounts_example =
    write-accounts 7 five_frames 5 (omega arith) tiny [] tiny-Holds.0 refl (omega arith)
      (omega arith) (omega arith)

write-records_example :
    (n : ℕ) × (n ≤ 5) × Holds (write_interleaved 7 five_frames 2 tiny).0 (take (n * 2) five_frames)
write-records_example = write-records 7 five_frames 5 (omega arith) tiny [] tiny-Holds.0 refl

-- The second frame to the fourth of the five, into a destination of one frame more.
copy-exact_example :
    copy_interleaved_range_into
      (write_interleaved 7 five_frames 2 tiny).0
      1
      4
      (0 ∷ 0 ∷ 0 ∷ 0 ∷ 0 ∷ 0 ∷ 0 ∷ 0 ∷ [])
    ≡ (3 ∷ 4 ∷ 5 ∷ 6 ∷ 7 ∷ 8 ∷ 0 ∷ 0 ∷ [], ok 3)
unfolding write_interleaved write_turn checked_add slice? mul_u64 splice? slice add_u32
copy-exact_example =
    copy-exact 1 4 4 (0 ∷ 0 ∷ 0 ∷ 0 ∷ 0 ∷ 0 ∷ 0 ∷ 0 ∷ []) recorded-Holds
      (omega (arith, recorded_oldest)) (omega arith) (omega (arith, recorded_head)) refl
      (omega arith) (omega arith)

copy-refuses_example :
    copy_interleaved_range_into tiny 1 0 (0 ∷ [])
    ≡ (0 ∷ [], err (export_invariant "copy range start exceeds end"))
copy-refuses_example = copy-refuses tiny 1 0 (0 ∷ []) (inl (omega arith))

copy-write_example :
    copy_interleaved_range_into
      (write_interleaved 7 four_frames 2 tiny).0
      0
      (write_interleaved 7 four_frames 2 tiny).0.global_write_frame
      (0 ∷ 0 ∷ 0 ∷ 0 ∷ 0 ∷ 0 ∷ 0 ∷ 0 ∷ [])
    ≡ (four_frames, ok 4)
copy-write_example =
    copy-write 7 four_frames (0 ∷ 0 ∷ 0 ∷ 0 ∷ 0 ∷ 0 ∷ 0 ∷ 0 ∷ []) 4 tiny-Holds.0 tiny-Holds.1 refl
      refl (omega arith) (omega arith) (omega arith) (omega arith) (omega arith)

reset-Holds_example :
    Holds (reset tiny).0 []
    × IsUnpinned (reset tiny).0
    × ((reset tiny).0.dropped_frames ≡ 0)
    × (tiny.active_snapshots ≡ 0)
reset-Holds_example = reset-Holds tiny-Holds.0 reset-tiny

clear-Holds_example : Holds (clear tiny) [] × (oldest_frame (clear tiny) ≡ 0)
clear-Holds_example = clear-Holds tiny-Holds.0

oldest_frame_example :
    oldest_frame (write_interleaved 7 five_frames 2 tiny).0
    ≡ max
        ((div_ceil
              (write_interleaved 7 five_frames 2 tiny).0.global_write_frame
              (write_interleaved 7 five_frames 2 tiny).0.cfg.chunk_frames
            - (write_interleaved 7 five_frames 2 tiny).0.cfg.chunk_count)
          * (write_interleaved 7 five_frames 2 tiny).0.cfg.chunk_frames)
        (write_interleaved 7 five_frames 2 tiny).0.clear_after_frame
oldest_frame_example = oldest_frame_lem recorded-Holds

abbrev half : SnapshotSegment
half = record { chunk = 0; expected_sequence = 1; start_frame_in_chunk = 0; frame_count = 2 }

abbrev one_chunk : SampleRing
one_chunk = record tiny {
  chunks =
      record (fresh_chunk (1 ∷ 2 ∷ 3 ∷ 4 ∷ [])) {
        sequence = 1;
        state = published;
        pin_count = 1;
        valid_frame_count = 2;
      }
      ∷ fresh_chunk (0 ∷ 0 ∷ 0 ∷ 0 ∷ [])
      ∷ fresh_chunk (0 ∷ 0 ∷ 0 ∷ 0 ∷ [])
      ∷ [];
  write_chunk = 1;
  global_write_frame = 2;
  active_snapshots = 1;
}

-- The two frames of the chunk as two segments, the later one first.
abbrev early : SnapshotSegment
early = record half { frame_count = 1 }

abbrev late : SnapshotSegment
late = record half { start_frame_in_chunk = 1; frame_count = 1 }

finish_snapshot-Tiles_example : finish_snapshot 0 2 (late ∷ early ∷ []) true one_chunk ≡ (
  one_chunk,
  ok (record {
    segments = early ∷ late ∷ [];
    start_frame = 0;
    end_frame = 2;
    channels = one_chunk.cfg.channels;
    sample_rate = one_chunk.cfg.sample_rate;
    total_frames = 2 - 0;
    active_counter = true;
  }),
)
finish_snapshot-Tiles_example =
    finish_snapshot-Tiles 0 2 (late ∷ early ∷ []) (early ∷ late ∷ []) true one_chunk (omega arith)
      ((_, refl, refl), omega arith, ((_, refl, refl), omega arith, refl))
      (early ∷ [], [], refl, ([], [], refl, refl))

write-KeepsPinned_example : KeepsPinned one_chunk (write_interleaved 7 five_frames 2 one_chunk).0
write-KeepsPinned_example = write-KeepsPinned 7 five_frames 2 one_chunk
