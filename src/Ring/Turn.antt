-- ===== src/Ring/Turn.antt =====
-- What one turn of the write loop does to a ring that holds a recording.
use native.Mathlib.Decide.{dec_lt, ℕ_discrete}
use native.Mathlib.Nat.{mod-lt, div-add-mod', mul-le-mul_right, mul-le-mul}
use last_audio_memory_buffer.Base.{
  ℕ, ◌+◌, ◌-◌, ◌*◌, ◌%◌, ◌/◌, ◌<◌, ◌≤◌, ◌≡◌, ◌⊎◌, inl, inr, sym, min, List, some, none, arith,
  length, get_elem?, get_elem?-IsSome, slice, slice-length, slice?_lem, splice?_lem, lt→ltb,
  le→ltb_false, mul_u64_lem, checked_add_lem, checked_add-none, u64_mod, u32_max,
}
use last_audio_memory_buffer.Base.Error.{err, capture_invariant}
use last_audio_memory_buffer.Ring.{Chunk, SampleRing, record_overrun}
use last_audio_memory_buffer.Ring.Write.{Turn, continue, stop, fill, following_sequence, write_turn}
use last_audio_memory_buffer.Ring.Holds.{Holds}
use last_audio_memory_buffer.Ring.Advance.{Fits, advanced, room_samples}

-- The chunk at the head.
pub head_chunk :
    (r : SampleRing) (w : List ℕ)
    → Holds r w
    → (c : Chunk) × (get_elem? r.chunks r.write_chunk ≡ some c)
head_chunk r w v = get_elem?-IsSome r.chunks r.write_chunk (
    omega (
      arith,
      v.write_index,
      v.sized,
      mod-lt (r.global_write_frame / r.cfg.chunk_frames) v.valid.some_chunks,
    ))

-- With the head's chunk and room for the frames, the copy succeeds.
fill_lem :
    {r : SampleRing} {w : List ℕ} {c : Chunk} {q o m : ℕ} (samples : List ℕ) (frame_index next : ℕ)
    → Fits r w c q o m (slice samples (frame_index * r.cfg.channels) (m * r.cfg.channels))
    → (frame_index + m) * r.cfg.channels ≤ length samples
    → length samples < u64_mod
    → fill samples r c frame_index o m (r.global_write_frame + m) next
      ≡ continue
          (advanced r c o m
            (slice samples (frame_index * r.cfg.channels) (m * r.cfg.channels))
            next)
          (frame_index + m)
unfolding fill
fill_lem {r} {c = c} {o = o} {m = m} samples frame_index next v within small = rw (
  fill,
  mul_u64_lem frame_index r.cfg.channels (omega arith),
  mul_u64_lem m r.cfg.channels (omega arith),
  slice?_lem samples (frame_index * r.cfg.channels) (m * r.cfg.channels) (omega arith),
  mul_u64_lem o r.cfg.channels offset_small,
  splice?_lem c.buf (o * r.cfg.channels)
      (slice samples (frame_index * r.cfg.channels) (m * r.cfg.channels)) (room_samples v),
)
  where
    offset_small : o * r.cfg.channels < u64_mod
    offset_small = omega (
      arith,
      mul-le-mul {n₁ = o} {m₁ = r.cfg.channels} {n₂ = u32_max} {m₂ = u32_max}
          (omega (arith, v.offset, v.holds.valid.frames_u32)) v.holds.valid.channels_u32,
    )

following_sequence_cases :
    (r : SampleRing) (o : ℕ)
    → (u64_mod ≤ r.next_sequence + 1) × (following_sequence r o ≡ none)
      ⊎ ((next : ℕ) × (next ≤ r.next_sequence + 1) × (following_sequence r o ≡ some next))
unfolding following_sequence
following_sequence_cases r o = elim (ℕ_discrete o 0) [
  | no ne ↦ inr (r.next_sequence, omega arith, ground arith)
  | yes e ↦ elim (dec_lt (r.next_sequence + 1) u64_mod) [
    | yes h ↦
        inr (r.next_sequence + 1, omega arith, ground (arith, checked_add_lem r.next_sequence 1 h))
    | no h ↦ inl (omega arith, ground (arith, checked_add-none r.next_sequence 1 (omega arith)))
  ]
]

-- The frames that a turn copies, and the samples that they are.
abbrev pub turn_frames : SampleRing → ℕ → ℕ → ℕ
turn_frames r total_frames frame_index =
    min (r.cfg.chunk_frames - r.global_write_frame % r.cfg.chunk_frames)
      (total_frames - frame_index)

abbrev pub turn_samples : List ℕ → SampleRing → ℕ → ℕ → List ℕ
turn_samples samples r total_frames frame_index =
    slice samples (frame_index * r.cfg.channels)
      (turn_frames r total_frames frame_index * r.cfg.channels)

-- The four ways that a turn can end.
pub data TurnEnds (now : ℕ) (samples : List ℕ) (total_frames : ℕ) (r : SampleRing) (w : List ℕ)
    (frame_index : ℕ) : Turn → Type 0 where
  frames_exhausted :
      {t : Turn}
      → u64_mod ≤ r.global_write_frame + (total_frames - frame_index)
      → t ≡ stop r (err (capture_invariant "local frame counter exhausted"))
      → TurnEnds now samples total_frames r w frame_index t
  sequence_exhausted :
      {t : Turn}
      → u64_mod ≤ r.next_sequence + 1
      → t ≡ stop r (err (capture_invariant "ring sequence exhausted"))
      → TurnEnds now samples total_frames r w frame_index t
  overrun :
      {t : Turn} (c : Chunk)
      → get_elem? r.chunks r.write_chunk ≡ some c
      → 0 < c.pin_count
      → t
        ≡ stop
            (record_overrun now (total_frames - frame_index) r).0
            (record_overrun now (total_frames - frame_index) r).1
      → TurnEnds now samples total_frames r w frame_index t
  copied :
      {t : Turn} (c : Chunk) (q o next : ℕ)
      → c.pin_count ≡ 0
      → next ≤ r.next_sequence + 1
      → Fits r w c q o
          (turn_frames r total_frames frame_index)
          (turn_samples samples r total_frames frame_index)
      → t
        ≡ continue
            (advanced r c o
              (turn_frames r total_frames frame_index)
              (turn_samples samples r total_frames frame_index)
              next)
            (frame_index + turn_frames r total_frames frame_index)
      → TurnEnds now samples total_frames r w frame_index t

module _ (now : ℕ) (samples : List ℕ) (total_frames : ℕ) (r : SampleRing) (w : List ℕ)
    (frame_index : ℕ) (v : Holds r w) (whole : length samples ≡ total_frames * r.cfg.channels)
    (small : length samples < u64_mod) (more : frame_index < total_frames) where
  turn_Fits :
      (c : Chunk)
      → get_elem? r.chunks r.write_chunk ≡ some c
      → r.global_write_frame + turn_frames r total_frames frame_index < u64_mod
      → Fits r w c
          (r.global_write_frame / r.cfg.chunk_frames)
          (r.global_write_frame % r.cfg.chunk_frames)
          (turn_frames r total_frames frame_index)
          (turn_samples samples r total_frames frame_index)
  turn_Fits c found counted = record {
    holds = v;
    head = sym (div-add-mod' r.global_write_frame r.cfg.chunk_frames);
    offset = mod-lt r.global_write_frame v.valid.some_frames;
    found = found;
    progress = omega (arith, mod-lt r.global_write_frame v.valid.some_frames);
    room = omega (arith, mod-lt r.global_write_frame v.valid.some_frames);
    frames = slice-length samples _ _ within;
    counted = counted;
  }
    where
      within :
          frame_index * r.cfg.channels + turn_frames r total_frames frame_index * r.cfg.channels
          ≤ length samples
      within = omega (
        arith,
        whole,
        mul-le-mul_right {m = frame_index + turn_frames r total_frames frame_index}
            {n = total_frames} r.cfg.channels (omega arith),
      )

  pub write_turn-TurnEnds :
      TurnEnds now samples total_frames r w frame_index
        (write_turn now samples total_frames r frame_index)
  unfolding write_turn
  write_turn-TurnEnds =
      let (c, found) = head_chunk r w v in
      elim (dec_lt (r.global_write_frame + turn_frames r total_frames frame_index) u64_mod) [
        | no h ↦ frames_exhausted (omega arith) (
            rw (
              write_turn,
              found,
              checked_add-none r.global_write_frame (turn_frames r total_frames frame_index)
                  (omega arith),
            ))
        | yes h ↦ elim (following_sequence_cases r (r.global_write_frame % r.cfg.chunk_frames)) [
          | inl (past, e) ↦ sequence_exhausted past (
              rw (
                write_turn,
                found,
                checked_add_lem r.global_write_frame (turn_frames r total_frames frame_index) h,
                e,
              ))
          | inr (next, le, e) ↦ elim (dec_lt 0 c.pin_count) [
            | yes pinned ↦ overrun c found pinned (
                rw (
                  write_turn,
                  found,
                  checked_add_lem r.global_write_frame (turn_frames r total_frames frame_index) h,
                  e,
                  lt→ltb 0 c.pin_count pinned,
                ))
            | no free ↦ copied c _ _ next (omega arith) le (turn_Fits c found h) (
                rw
                  (
                    write_turn,
                    found,
                    checked_add_lem r.global_write_frame (turn_frames r total_frames frame_index) h,
                    e,
                    le→ltb_false 0 c.pin_count (omega arith),
                  )
                  (fill_lem samples frame_index next (turn_Fits c found h) within small))
          ]
        ]
      ]
    where
      within :
          (frame_index + turn_frames r total_frames frame_index) * r.cfg.channels ≤ length samples
      within = omega (
        arith,
        whole,
        mul-le-mul_right {m = frame_index + turn_frames r total_frames frame_index}
            {n = total_frames} r.cfg.channels (omega arith),
      )
