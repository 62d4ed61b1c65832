-- ===== src/Ring/Write.antt =====
-- `write_interleaved` of sample_ring.rs, one turn of its loop at a time: a turn is one critical
-- section of the `write_chunk` lock.
use last_audio_memory_buffer.Base.{
  ℕ, zero, suc, ◌+◌, ◌-◌, ◌%◌, ◌/◌, min, List, true, false, Option, none, some, length, get_elem?,
  set, ltb, leb, ◌==◌, not, ◌||◌, if◌then◌else◌, checked_add, add_u32, mul_u64, slice?, splice?,
}
use last_audio_memory_buffer.Base.Error.{Result, ok, err, panic, capture_invariant}
use last_audio_memory_buffer.Ring.{Chunk, SampleRing, writing, published, record_overrun}

-- What a turn does: go on at another frame index, or leave the loop.
pub data Turn : Type 0 where
  continue : SampleRing → ℕ → Turn
  stop : SampleRing → Result (Unit {0}) → Turn

-- The chunk as it is opened for writing: a new generation at offset 0.
unfoldable pub open_chunk : SampleRing → ℕ → Chunk → Chunk
open_chunk r offset c =
    if offset == 0
    then record c {
      sequence = r.next_sequence;
      state = writing;
      valid_start_frame = r.global_write_frame;
      valid_frame_count = 0;
    }
    else record c { state = writing }

-- The stores that publish what was copied into the chunk, and the move to the next chunk.
unfoldable pub publish : SampleRing → Chunk → List ℕ → ℕ → ℕ → ℕ → SampleRing
publish r c buf new_valid new_global next_sequence = record r {
  chunks =
      set r.chunks r.write_chunk
        (record c { state = published; valid_frame_count = new_valid; buf = buf });
  write_chunk =
      if leb r.cfg.chunk_frames new_valid
      then (r.write_chunk + 1) % length r.chunks
      else r.write_chunk;
  global_write_frame = new_global;
  next_sequence = next_sequence;
}

-- The copy of the frames, between opening the chunk and publishing it. On a panic the ring is given
-- as it was before the turn; the source has then marked the chunk as being written.
unfoldable pub fill : List ℕ → SampleRing → Chunk → ℕ → ℕ → ℕ → ℕ → ℕ → Turn
unfolding open_chunk publish
fill samples r c frame_index offset frames new_global next_sequence =
    elim (slice? samples (mul_u64 frame_index r.cfg.channels) (mul_u64 frames r.cfg.channels)) [
      | none ↦ stop r (err panic)
      | some source ↦ elim (splice? c.buf (mul_u64 offset r.cfg.channels) source) [
        | none ↦ stop r (err panic)
        | some buf ↦
            continue
              (publish r (open_chunk r offset c) buf (add_u32 offset frames) new_global
                next_sequence)
              (frame_index + frames)
      ]
    ]

-- The sequence number of the following generation, taken at offset 0 only.
unfoldable pub following_sequence : SampleRing → ℕ → Option ℕ
following_sequence r offset =
    if offset == 0 then checked_add r.next_sequence 1 else some r.next_sequence

-- One turn of the loop, at `frame_index < total_frames`.
unfoldable pub write_turn : ℕ → List ℕ → ℕ → SampleRing → ℕ → Turn
unfolding fill following_sequence
write_turn now samples total_frames r frame_index =
    let offset = r.global_write_frame % r.cfg.chunk_frames in
    let frames = min (r.cfg.chunk_frames - offset) (total_frames - frame_index) in
    elim (get_elem? r.chunks r.write_chunk) [
      | none ↦ stop r (err panic)
      | some c ↦ elim (checked_add r.global_write_frame frames) [
        | none ↦ stop r (err (capture_invariant "local frame counter exhausted"))
        | some new_global ↦ elim (following_sequence r offset) [
          | none ↦ stop r (err (capture_invariant "ring sequence exhausted"))
          | some next_sequence ↦
              if ltb 0 c.pin_count
              then (let (r', result) = record_overrun now (total_frames - frame_index) r in
                  stop r' result)
              else fill samples r c frame_index offset frames new_global next_sequence
        ]
      ]
    ]

-- The loop, on fuel: a turn copies a frame at least, so `total_frames` turns suffice.
unfoldable pub write_loop : ℕ → ℕ → List ℕ → ℕ → SampleRing → ℕ → SampleRing × Result (Unit {0})
write_loop zero now samples total_frames r frame_index = (r, ok tt)
write_loop (suc fuel) now samples total_frames r frame_index = elim (ltb frame_index total_frames) [
  | false ↦ (r, ok tt)
  | true ↦ elim (write_turn now samples total_frames r frame_index) [
    | stop r' result ↦ (r', result)
    | continue r' frame_index' ↦ write_loop fuel now samples total_frames r' frame_index'
  ]
]

-- `write_interleaved`
unfoldable pub write_interleaved : ℕ → List ℕ → ℕ → SampleRing → SampleRing × Result (Unit {0})
unfolding write_loop
write_interleaved now samples channels r =
    if not (channels == r.cfg.channels)
    then (r, err (capture_invariant "incoming channels do not match ring channels"))
    else if channels == 0 || not (length samples % channels == 0)
    then (r, err (capture_invariant "input sample length is not whole frames"))
    else let total_frames = length samples / channels in
      write_loop total_frames now samples total_frames r 0
