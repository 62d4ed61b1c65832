-- ===== src/Ring/Copy.antt =====
-- `oldest_frame_at`, `status` and `copy_interleaved_range_into` of sample_ring.rs.
use last_audio_memory_buffer.Base.{
  ℕ, zero, suc, ◌+◌, ◌-◌, ◌*◌, ◌%◌, ◌/◌, min, max, List, true, false, none, some, length, get_elem?,
  ltb, leb, ◌==◌, not, ◌||◌, if◌then◌else◌, checked_add, checked_mul, add_u64, slice?, splice?,
}
use last_audio_memory_buffer.Base.Error.{
  Result, ok, err, panic, export_invariant, ◌>>=◌, ◌>>◌, require, ok_or,
}
use last_audio_memory_buffer.Ring.{Chunk, SampleRing, RingStatus, is_published}

-- The index of the chunk that a frame lies in.
abbrev pub chunk_index : SampleRing → ℕ → ℕ
chunk_index r frame = frame / r.cfg.chunk_frames % length r.chunks

-- The walk from the head back over adjacent published chunks. The index is always in range.
unfoldable pub oldest_walk : ℕ → SampleRing → ℕ → ℕ
oldest_walk zero r oldest = oldest
oldest_walk (suc n) r oldest =
    let further = λ (c : Chunk). oldest_walk n r c.valid_start_frame in
    if oldest == 0 then oldest else elim (get_elem? r.chunks (chunk_index r (oldest - 1))) [
      | none ↦ oldest
      | some c ↦
          if not (is_published c.state)
          then oldest
          else if leb oldest c.valid_start_frame
              || ltb (add_u64 c.valid_start_frame c.valid_frame_count) oldest
          then oldest
          else further c
    ]

unfoldable pub oldest_frame_at : SampleRing → ℕ → ℕ
unfolding oldest_walk
oldest_frame_at r head = max (oldest_walk (length r.chunks) r head) r.clear_after_frame

-- `oldest_frame`
unfoldable pub oldest_frame : SampleRing → ℕ
unfolding oldest_frame_at
oldest_frame r = oldest_frame_at r r.global_write_frame

unfoldable pub status : SampleRing → RingStatus
unfolding oldest_frame_at
status r = record {
  dropped_frames = r.dropped_frames;
  retained_frames = r.global_write_frame - oldest_frame_at r r.global_write_frame;
  capacity_frames = r.cfg.chunk_frames * r.cfg.chunk_count;
  active_snapshots = r.active_snapshots;
  last_overrun = r.last_overrun;
}

-- What a turn of the copy loop leaves: the destination, the cursor and the frames copied so far.
pub record Copied : Type 0 where
  pub destination : List ℕ
  pub cursor : ℕ
  pub destination_frame : ℕ

-- One turn of the loop, at `cursor < copy_end`.
unfoldable pub copy_turn : SampleRing → ℕ → Copied → Result Copied
copy_turn r copy_end s = do
  c ← ok_or (get_elem? r.chunks (chunk_index r s.cursor)) panic
  require (is_published c.state) (export_invariant "copy range has incomplete coverage")
  valid_end ←
      ok_or (checked_add c.valid_start_frame c.valid_frame_count)
        (export_invariant "chunk frame range overflow")
  require (not (ltb s.cursor c.valid_start_frame || leb valid_end s.cursor))
      (export_invariant "copy range has incomplete coverage")
  let segment_end = min copy_end valid_end
  let segment_frames = segment_end - s.cursor
  source_start ←
      ok_or (checked_mul (s.cursor - c.valid_start_frame) r.cfg.channels)
        (export_invariant "copy sample offset overflow")
  sample_count ←
      ok_or (checked_mul segment_frames r.cfg.channels)
        (export_invariant "copy sample count overflow")
  destination_start ←
      ok_or (checked_mul s.destination_frame r.cfg.channels)
        (export_invariant "destination sample offset overflow")
  source ← ok_or (slice? c.buf source_start sample_count) panic
  destination' ← ok_or (splice? s.destination destination_start source) panic
  ok (record {
    destination = destination';
    cursor = segment_end;
    destination_frame = s.destination_frame + segment_frames;
  })

-- The loop, on fuel: a turn copies a frame at least. An error leaves what was copied before it.
unfoldable pub copy_loop : ℕ → SampleRing → ℕ → Copied → List ℕ × Result ℕ
copy_loop zero r copy_end s = (s.destination, ok s.destination_frame)
copy_loop (suc fuel) r copy_end s = elim (ltb s.cursor copy_end) [
  | false ↦ (s.destination, ok s.destination_frame)
  | true ↦ elim (copy_turn r copy_end s) [
    | err e ↦ (s.destination, err e)
    | ok s' ↦ copy_loop fuel r copy_end s'
  ]
]

-- `copy_interleaved_range_into` of `start..end`: the destination after the call, and the count.
unfoldable pub copy_interleaved_range_into : SampleRing → ℕ → ℕ → List ℕ → List ℕ × Result ℕ
unfolding copy_loop oldest_frame_at
copy_interleaved_range_into r start end destination =
    if ltb end start
    then (destination, err (export_invariant "copy range start exceeds end"))
    else if not (length destination % r.cfg.channels == 0)
    then (destination, err (export_invariant "destination sample length is not whole frames"))
    else if ltb start (oldest_frame_at r r.global_write_frame) || ltb r.global_write_frame end
    then (destination, err (export_invariant "copy range is outside retained range"))
    else elim (checked_add start (length destination / r.cfg.channels)) [
      | none ↦ (destination, err (export_invariant "copy frame range overflow"))
      | some capacity_end ↦
          let copy_end = min end capacity_end in
          copy_loop (copy_end - start) r copy_end
            (record { destination = destination; cursor = start; destination_frame = 0 })
    ]
