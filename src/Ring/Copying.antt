-- ===== src/Ring/Copying.antt =====
-- `copy_interleaved_range_into` gives exactly the recorded samples of the range.
use native.Mathlib.Decide.{dec_lt}
use native.Mathlib.Nat.{mul-le-mul, mul-le-mul_right, div-add-mod', mod-lt}
use last_audio_memory_buffer.Base.{
  ℕ, zero, suc, ◌+◌, ◌-◌, ◌*◌, ◌%◌, ◌/◌, ◌<◌, ◌≤◌, ◌≡◌, ◌∙◌, ◌++◌, refl, sym, ap, ap₂, min, List,
  some, arith, length, get_elem?, drop, slice, splice?, slice-length, slice-take, slice-slice,
  slice-++, slice?_lem, splice?_lem, splice-next, length-append, length-drop, u64_mod, u32_max,
  checked_add_lem, checked_mul_lem, lt→leb_false, lt→ltb, le→ltb_false,
}
use last_audio_memory_buffer.Base.Error.{ok}
use last_audio_memory_buffer.Ring.{SampleRing}
use last_audio_memory_buffer.Ring.Copy.{chunk_index, Copied, copy_turn, copy_loop, oldest_frame}
use last_audio_memory_buffer.Ring.Blocks.{div_of_block}
use last_audio_memory_buffer.Ring.Holds.{Holds, Block}
use last_audio_memory_buffer.Ring.Oldest.{retained_block}

module _ {r : SampleRing} {w : List ℕ} (v : Holds r w) where
  -- The chunk of a retained frame, by the code's index.
  chunk_at :
      (x : ℕ) (b : Block r w (x / r.cfg.chunk_frames))
      → get_elem? r.chunks (chunk_index r x) ≡ some b.chunk
  chunk_at x b = ap (λ n. get_elem? r.chunks (x / r.cfg.chunk_frames % n)) v.sized ∙ b.found

  -- A run of frames within a block is the recording's.
  block_samples :
      (k a x n : ℕ) (b : Block r w k)
      → x ≡ k * r.cfg.chunk_frames + a
      → a + n ≤ b.chunk.valid_frame_count
      → slice b.chunk.buf (a * r.cfg.channels) (n * r.cfg.channels)
        ≡ slice w (x * r.cfg.channels) (n * r.cfg.channels)
  block_samples k a x n b e within =
      sym (
        slice-take b.chunk.buf (b.chunk.valid_frame_count * r.cfg.channels) (a * r.cfg.channels)
          (n * r.cfg.channels) fits)
      ∙ ap (λ l. slice l (a * r.cfg.channels) (n * r.cfg.channels)) b.frames
      ∙ slice-slice w (k * r.cfg.chunk_frames * r.cfg.channels)
          (b.chunk.valid_frame_count * r.cfg.channels) (a * r.cfg.channels) (n * r.cfg.channels)
          (x * r.cfg.channels) fits (omega (arith, ap (λ t. t * r.cfg.channels) e))
    where
      fits : a * r.cfg.channels + n * r.cfg.channels ≤ b.chunk.valid_frame_count * r.cfg.channels
      fits = omega (arith, mul-le-mul_right r.cfg.channels within)

product_small : (a c : ℕ) → a ≤ u32_max → c ≤ u32_max → a * c < u64_mod
product_small a c h k =
    omega (arith, mul-le-mul {n₁ = a} {m₁ = c} {n₂ = u32_max} {m₂ = u32_max} h k)

-- What has been copied, `done` frames of the range from `start` into `destination`.
abbrev pub after : SampleRing → List ℕ → ℕ → List ℕ → ℕ → Copied
after r w start destination done = record {
  destination =
      slice w (start * r.cfg.channels) (done * r.cfg.channels)
      ++ drop (done * r.cfg.channels) destination;
  cursor = start + done;
  destination_frame = done;
}

module _ {r : SampleRing} {w : List ℕ} (v : Holds r w) (start copy_end : ℕ) (destination : List ℕ)
    (old : oldest_frame r ≤ start) (past : copy_end ≤ r.global_write_frame)
    (room : (copy_end - start) * r.cfg.channels ≤ length destination)
    (small : length destination < u64_mod) where
  module _ (done n k a : ℕ) (b : Block r w k) (at : start + done ≡ k * r.cfg.chunk_frames + a)
      (progress : 0 < n) (inside : a + n ≤ b.chunk.valid_frame_count)
      (within : start + done + n ≤ copy_end)
      (reach : start + done + n
        ≡ min copy_end (b.chunk.valid_start_frame + b.chunk.valid_frame_count)) where
    count-le : b.chunk.valid_frame_count ≤ r.cfg.chunk_frames
    count-le = omega (arith, b.count)

    end-le : b.chunk.valid_start_frame + b.chunk.valid_frame_count ≤ r.global_write_frame
    end-le = omega (arith, b.start, b.count, progress, inside)

    found : get_elem? r.chunks (chunk_index r (start + done)) ≡ some b.chunk
    found =
        ap₂ (λ t m. get_elem? r.chunks (t % m))
          (ap (λ t. t / r.cfg.chunk_frames) at
            ∙ div_of_block r.cfg.chunk_frames k a (omega (arith, count-le)))
          v.sized
        ∙ b.found

    place : start + done - b.chunk.valid_start_frame ≡ a
    place = omega (arith, at, b.start)

    in_room : (done + n) * r.cfg.channels ≤ length destination
    in_room = omega (
      arith,
      room,
      mul-le-mul_right {m = done + n} {n = copy_end - start} r.cfg.channels (omega arith),
    )

    in_recording : (start + (done + n)) * r.cfg.channels ≤ length w
    in_recording = omega (
      arith,
      v.recorded,
      mul-le-mul_right {m = start + (done + n)} {n = r.global_write_frame} r.cfg.channels
          (omega arith),
    )

    in_chunk : a * r.cfg.channels + n * r.cfg.channels ≤ length b.chunk.buf
    in_chunk = omega (
      arith,
      v.lengths (k % r.cfg.chunk_count) b.chunk b.found,
      mul-le-mul_right {m = a + n} {n = r.cfg.chunk_frames} r.cfg.channels
          (omega (arith, count-le)),
    )

    place_small : a * r.cfg.channels < u64_mod
    place_small =
        product_small a r.cfg.channels (omega (arith, count-le, v.valid.frames_u32))
          v.valid.channels_u32

    source : List ℕ
    source = slice b.chunk.buf (a * r.cfg.channels) (n * r.cfg.channels)

    length-source : length source ≡ n * r.cfg.channels
    unfolding source
    length-source = slice-length b.chunk.buf (a * r.cfg.channels) (n * r.cfg.channels) in_chunk

    length_front :
        length (slice w (start * r.cfg.channels) (done * r.cfg.channels)) ≡ done * r.cfg.channels
    length_front =
        slice-length w (start * r.cfg.channels) (done * r.cfg.channels)
          (omega (arith, in_recording))

    spliced :
        splice? (after r w start destination done).destination (done * r.cfg.channels) source
        ≡ some (after r w start destination (done + n)).destination
    unfolding source
    spliced =
        splice?_lem (after r w start destination done).destination (done * r.cfg.channels) source (
          omega (
            arith,
            length-source,
            length-append (slice w (start * r.cfg.channels) (done * r.cfg.channels))
                (drop (done * r.cfg.channels) destination),
            length_front,
            length-drop (done * r.cfg.channels) destination,
            in_room,
          ))
        ∙ ap some (
            splice-next destination _ source (done * r.cfg.channels)
              (done * r.cfg.channels + length source) length_front refl
            ∙ ap₂ (λ l m. l ++ drop m destination) joined (omega (arith, length-source)))
      where
        joined :
            slice w (start * r.cfg.channels) (done * r.cfg.channels) ++ source
            ≡ slice w (start * r.cfg.channels) ((done + n) * r.cfg.channels)
        joined =
            ap (λ l. slice w (start * r.cfg.channels) (done * r.cfg.channels) ++ l)
              (block_samples v k a (start + done) n b at inside)
            ∙ slice-++ w (start * r.cfg.channels) ((start + done) * r.cfg.channels)
                (done * r.cfg.channels) (n * r.cfg.channels) ((done + n) * r.cfg.channels)
                (omega arith) (omega arith)

    turn_in_block :
        copy_turn r copy_end (after r w start destination done)
        ≡ ok (after r w start destination (done + n))
    unfolding copy_turn source
    turn_in_block =
        let c = b.chunk in
        let cursor : min copy_end (c.valid_start_frame + c.valid_frame_count) ≡ start + (done + n) =
          omega (arith, reach) in
        let taken : start + (done + n) - (start + done) ≡ n = omega arith in
        rw (
          found,
          b.is_pub,
          checked_add_lem c.valid_start_frame c.valid_frame_count
              (omega (arith, end-le, v.counted)),
          le→ltb_false (start + done) c.valid_start_frame (omega (arith, at, b.start)),
          lt→leb_false (c.valid_start_frame + c.valid_frame_count) (start + done)
              (omega (arith, at, b.start)),
          place,
          cursor,
          taken,
          checked_mul_lem a r.cfg.channels place_small,
          checked_mul_lem n r.cfg.channels (omega (arith, in_room)),
          checked_mul_lem done r.cfg.channels (omega (arith, in_room)),
          slice?_lem c.buf (a * r.cfg.channels) (n * r.cfg.channels) in_chunk,
          spliced,
        )

  -- A turn at a frame of the range copies some frames, up to the end of the range at most.
  copy_turn_lem :
      (done : ℕ)
      → start + done < copy_end
      → (n : ℕ) × (0 < n)
        × (start + done + n ≤ copy_end)
        × (copy_turn r copy_end (after r w start destination done)
            ≡ ok (after r w start destination (done + n)))
  copy_turn_lem done more =
      at_block (retained_block v (start + done) (omega (arith, old)) (omega (arith, past)))
    where
      at_block :
          Block r w ((start + done) / r.cfg.chunk_frames)
          → (n : ℕ) × (0 < n)
            × (start + done + n ≤ copy_end)
            × (copy_turn r copy_end (after r w start destination done)
                ≡ ok (after r w start destination (done + n)))
      at_block b =
          let x = start + done in
          let quotient = div-add-mod' x r.cfg.chunk_frames in
          let remainder = mod-lt x v.valid.some_frames in
          let n = min copy_end (b.chunk.valid_start_frame + b.chunk.valid_frame_count) - x in
          let progress : 0 < n = omega (arith, b.start, b.count, quotient, remainder, more, past) in
          (
            n,
            progress,
            omega (arith, progress),
            turn_in_block done n (x / r.cfg.chunk_frames) (x % r.cfg.chunk_frames) b (sym quotient)
                progress (omega (arith, b.start, b.count, quotient, remainder, progress))
                (omega (arith, progress)) (omega (arith, progress)),
          )

  -- Enough fuel: the loop copies the range to its end.
  pub copy_loop_lem :
      (fuel done : ℕ)
      → start + done ≤ copy_end
      → copy_end ≤ start + done + fuel
      → copy_loop fuel r copy_end (after r w start destination done)
        ≡ ((after r w start destination (copy_end - start)).destination, ok (copy_end - start))
  unfolding copy_loop
  copy_loop_lem zero done le enough =
      ap (λ d. ((after r w start destination d).destination, ok d)) (omega arith)
  copy_loop_lem (suc fuel) done le enough = elim (dec_lt (start + done) copy_end) [
    | no h ↦
        rw (copy_loop, le→ltb_false (start + done) copy_end (omega arith))
          (ap (λ d. ((after r w start destination d).destination, ok d)) (omega arith))
    | yes h ↦
        let (n, progress, within, e) = copy_turn_lem done h in
        rw (copy_loop, lt→ltb (start + done) copy_end h, e)
          (copy_loop_lem fuel (done + n) (omega arith) (omega arith))
  ]
