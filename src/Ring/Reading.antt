-- ===== src/Ring/Reading.antt =====
-- What `copy_interleaved_range_into` promises to its caller, also after a write.
use mathlib.Core.List.{append-nil}
use native.Mathlib.Nat.{mul-div_left, mul-mod_left, mul-le-mul_right, le_refl}
use last_audio_memory_buffer.Base.{
  ℕ, ◌+◌, ◌-◌, ◌*◌, ◌%◌, ◌/◌, ◌<◌, ◌≤◌, ◌≡◌, ◌≢◌, ◌∙◌, ◌++◌, ◌⊎◌, sym, ap, ap₂, subst, min, List,
  arith, length, drop, take-all, slice, slice-append_right, drop-all, u64_mod, checked_add_lem,
  le→ltb_false, ltb, ◌==◌, if◌then◌else◌,
}
use last_audio_memory_buffer.Base.Error.{ok, err, export_invariant}
use last_audio_memory_buffer.Ring.{SampleRing, RingConfig}
use last_audio_memory_buffer.Ring.Copy.{
  Copied, copy_loop, copy_interleaved_range_into, oldest_frame_at, oldest_frame,
}
use last_audio_memory_buffer.Ring.Write.{write_interleaved}
use last_audio_memory_buffer.Ring.Holds.{Holds}
use last_audio_memory_buffer.Ring.Recording.{IsUnpinned}
use last_audio_memory_buffer.Ring.Writing.{write_complete, write-cfg, write-clear, write-moves}
use last_audio_memory_buffer.Ring.Oldest.{oldest-le}
use last_audio_memory_buffer.Ring.Copying.{after, copy_loop_lem}

-- Nothing has been copied at first.
after-zero :
    (r : SampleRing) (w : List ℕ) (start : ℕ) (destination : List ℕ)
    → ◌≡◌ {A = Copied}
        (record { destination = destination; cursor = start; destination_frame = 0 })
        (after r w start destination 0)
unfolding slice
after-zero r w start destination =
    ap₂ (λ l x. record { destination = l; cursor = x; destination_frame = 0 })
      (ap (λ n. slice w (start * r.cfg.channels) n ++ drop n destination) {x = 0} (omega arith))
      (omega arith)

-- A retained range is copied exactly into a destination of whole frames: the destination then
-- starts with the recorded samples of as many frames of the range as it has room for, the rest of
-- it is unchanged, and that number of frames is returned.
pub copy-exact :
    {r : SampleRing} {w : List ℕ} (start end frames : ℕ) (destination : List ℕ)
    → Holds r w
    → oldest_frame r ≤ start
    → start ≤ end
    → end ≤ r.global_write_frame
    → length destination ≡ frames * r.cfg.channels
    → length destination < u64_mod
    → start + frames < u64_mod
    → copy_interleaved_range_into r start end destination ≡ (
      slice w (start * r.cfg.channels) (min (end - start) frames * r.cfg.channels)
          ++ drop (min (end - start) frames * r.cfg.channels) destination,
      ok (min (end - start) frames),
    )
unfolding copy_interleaved_range_into oldest_frame
copy-exact {r} {w} start end frames destination v old le recent whole small room =
    rw
      (
        copy_interleaved_range_into,
        le→ltb_false end start le,
        ragged,
        le→ltb_false start (oldest_frame_at r r.global_write_frame) old,
        le→ltb_false r.global_write_frame end recent,
        in_frames,
        checked_add_lem start frames room,
      )
      (ap (copy_loop (copy_end - start) r copy_end) (after-zero r w start destination)
        ∙ copy_loop_lem v start copy_end destination old (omega arith) fits small (copy_end - start)
            0 (omega arith) (omega arith)
        ∙ ap (λ d. ((after r w start destination d).destination, ok d)) (omega arith))
  where
    copy_end : ℕ
    copy_end = min end (start + frames)

    in_frames : length destination / r.cfg.channels ≡ frames
    in_frames = ap (λ t. t / r.cfg.channels) whole ∙ mul-div_left frames v.valid.some_channels

    ragged : length destination % r.cfg.channels ≡ 0
    ragged = ap (λ t. t % r.cfg.channels) whole ∙ mul-mod_left frames r.cfg.channels

    fits : (copy_end - start) * r.cfg.channels ≤ length destination
    fits = omega (
      arith,
      whole,
      mul-le-mul_right {m = copy_end - start} {n = frames} r.cfg.channels (omega arith),
    )

-- A range that is reversed, that is no longer or not yet in the ring, or a destination that is not
-- whole frames, is refused, and the destination is left as it was.
pub copy-refuses :
    (r : SampleRing) (start end : ℕ) (destination : List ℕ)
    → (end < start)
      ⊎ (length destination % r.cfg.channels ≢ 0)
      ⊎ (start < oldest_frame r)
      ⊎ (r.global_write_frame < end)
    → copy_interleaved_range_into r start end destination ≡ (
      destination,
      err (
          export_invariant (
            if ltb end start
            then "copy range start exceeds end"
            else if length destination % r.cfg.channels == 0
            then "copy range is outside retained range"
            else "destination sample length is not whole frames")),
    )
unfolding copy_interleaved_range_into oldest_frame
copy-refuses r start end destination h = ground arith

-- What a call of `write_interleaved` has just recorded, `copy_interleaved_range_into` gives back:
-- on a ring that no snapshot holds and whose counters have room, for an input that fits the ring
-- with a chunk to spare.
pub copy-write :
    (now : ℕ) (samples destination : List ℕ) (frames : ℕ) {r : SampleRing} {w : List ℕ}
    → Holds r w
    → IsUnpinned r
    → length samples ≡ frames * r.cfg.channels
    → length destination ≡ frames * r.cfg.channels
    → length samples < u64_mod
    → r.global_write_frame + frames < u64_mod
    → r.next_sequence + frames < u64_mod
    → r.dropped_frames + frames < u64_mod
    → frames + r.cfg.chunk_frames ≤ r.cfg.chunk_frames * r.cfg.chunk_count
    → let r' = (write_interleaved now samples r.cfg.channels r).0 in
      copy_interleaved_range_into r' r.global_write_frame r'.global_write_frame destination
      ≡ (samples, ok frames)
copy-write now samples destination frames {r} {w} v u whole whole' small room sequence_room
      dropped_room fits =
    copy-exact r.global_write_frame r'.global_write_frame frames destination written.1 retained
      (omega (arith, head)) (le_refl _)
      (whole' ∙ ap (λ (c : RingConfig). frames * c.channels) (sym cfg)) (omega arith) room
    ∙ ap₂ (λ l d. (l, ok d)) copied count
  where
    r' : SampleRing
    r' = (write_interleaved now samples r.cfg.channels r).0

    written :
        ((write_interleaved now samples r.cfg.channels r).1 ≡ ok tt)
        × Holds r' (w ++ samples)
        × (r'.dropped_frames ≡ r.dropped_frames)
    written = write_complete now samples frames small r w v whole room sequence_room dropped_room u

    cfg : r'.cfg ≡ r.cfg
    cfg = write-cfg now samples frames small r w v whole room sequence_room dropped_room

    head : r'.global_write_frame ≡ r.global_write_frame + frames
    head = write-moves now samples frames small r w v whole room sequence_room dropped_room u

    clear : r'.clear_after_frame ≡ r.clear_after_frame
    clear = write-clear now samples frames small r w v whole room sequence_room dropped_room

    retained : oldest_frame r' ≤ r.global_write_frame
    retained = oldest-le written.1 r.global_write_frame (omega (arith, clear, v.cleared)) (
        subst
          (λ (c : RingConfig).
            r'.global_write_frame + c.chunk_frames
            ≤ r.global_write_frame + c.chunk_frames * c.chunk_count)
          (sym cfg) (omega (arith, head)))

    count : min (r'.global_write_frame - r.global_write_frame) frames ≡ frames
    count = omega (arith, head)

    copied :
        slice
            (w ++ samples)
            (r.global_write_frame * r'.cfg.channels)
            (min (r'.global_write_frame - r.global_write_frame) frames * r'.cfg.channels)
          ++ drop
              (min (r'.global_write_frame - r.global_write_frame) frames * r'.cfg.channels)
              destination
        ≡ samples
    copied =
        rw (count, cfg)
          (ap₂ (λ l m. l ++ m)
              (slice-append_right w samples (r.global_write_frame * r.cfg.channels)
                  (frames * r.cfg.channels) v.recorded
                ∙ take-all (frames * r.cfg.channels) samples (omega (arith, whole)))
              (drop-all (frames * r.cfg.channels) destination (omega (arith, whole')))
            ∙ append-nil samples)
