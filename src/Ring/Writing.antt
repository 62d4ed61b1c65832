-- ===== src/Ring/Writing.antt =====
-- The write loop as a whole, and what `write_interleaved` promises to its caller.
use native.Mathlib.Decide.{dec_lt}
use native.Mathlib.Nat.{mul-div_left, mul-mod_left, mul-le-mul_right}
use last_audio_memory_buffer.Base.{
  ℕ, zero, suc, ◌+◌, ◌-◌, ◌*◌, ◌%◌, ◌/◌, ◌<◌, ◌≤◌, ◌≡◌, ◌≢◌, ◌⊎◌, ◌++◌, ◌∙◌, ap, subst, List, arith,
  length, take, drop, take-all, length-append, length-take, if◌then◌else◌, slice, lt→ltb,
  le→ltb_false, u64_mod, ◌==◌,
}
use last_audio_memory_buffer.Base.Error.{ok, err, capture_invariant}
use last_audio_memory_buffer.Ring.{SampleRing, RingConfig}
use last_audio_memory_buffer.Ring.Blocks.{mul-right_cancel}
use last_audio_memory_buffer.Ring.Write.{
  Turn, continue, stop, publish, write_turn, write_loop, write_interleaved,
}
use last_audio_memory_buffer.Ring.Holds.{Holds}
use last_audio_memory_buffer.Ring.Advance.{advanced, advanced-Holds}
use last_audio_memory_buffer.Ring.Turn.{
  TurnEnds, frames_exhausted, sequence_exhausted, overrun, copied, write_turn-TurnEnds, turn_frames,
  turn_samples,
}
use last_audio_memory_buffer.Ring.Recording.{
  Wrote, IsUnpinned, failed-Wrote, overrun-Wrote, copied-Wrote, done-Wrote,
}

module _ (now : ℕ) (samples : List ℕ) (total_frames : ℕ) (small : length samples < u64_mod) where
  -- The rest of the loop, whatever the turn did, if the loop does so from the turn's ring on.
  turn-Wrote :
      (fuel : ℕ)
      → ((r : SampleRing) (w : List ℕ) (first : ℕ)
          → Holds r w
          → length samples ≡ total_frames * r.cfg.channels
          → first ≤ total_frames
          → total_frames ≤ first + fuel
          → Wrote r w samples total_frames first (write_loop fuel now samples total_frames r first))
      → (r : SampleRing) (w : List ℕ) (first : ℕ) (t : Turn) → Holds r w
      → length samples ≡ total_frames * r.cfg.channels
      → first < total_frames
      → total_frames ≤ first + suc fuel
      → TurnEnds now samples total_frames r w first t
      → Wrote r w samples total_frames first (elim t [
        | stop r' result ↦ (r', result)
        | continue r' frame_index' ↦ write_loop fuel now samples total_frames r' frame_index'
      ])
  unfolding publish
  turn-Wrote fuel ih r w first t v whole h enough (frames_exhausted over e) =
      rw e (failed-Wrote r w samples total_frames first v _ (omega arith) (λ a _ _. omega arith))
  turn-Wrote fuel ih r w first t v whole h enough (sequence_exhausted over e) =
      rw e (failed-Wrote r w samples total_frames first v _ (omega arith) (λ _ b _. omega arith))
  turn-Wrote fuel ih r w first t v whole h enough (overrun c found pinned e) =
      rw e (overrun-Wrote r w samples total_frames first v now c (omega arith) found pinned)
  turn-Wrote fuel ih r w first t v whole h enough (copied c q o next free step fits e) = rw e (
      copied-Wrote fits step (omega arith) (
        ih
          (advanced r c o (turn_frames r total_frames first)
            (turn_samples samples r total_frames first) next)
          _ _ (advanced-Holds fits next) whole (omega arith) (omega (arith, fits.progress))))

  -- Enough fuel: the loop ends by its test or by a stop.
  pub write_loop-Wrote :
      (fuel : ℕ) (r : SampleRing) (w : List ℕ) (first : ℕ)
      → Holds r w
      → length samples ≡ total_frames * r.cfg.channels
      → first ≤ total_frames
      → total_frames ≤ first + fuel
      → Wrote r w samples total_frames first (write_loop fuel now samples total_frames r first)
  unfolding write_loop
  write_loop-Wrote zero r w first v whole le enough =
      done-Wrote r w samples total_frames first v (omega arith)
  write_loop-Wrote (suc fuel) r w first v whole le enough = elim (dec_lt first total_frames) [
    | no h ↦
        rw (write_loop, le→ltb_false first total_frames (omega arith))
          (done-Wrote r w samples total_frames first v (omega arith))
    | yes h ↦
        rw (write_loop, lt→ltb first total_frames h)
          (turn-Wrote fuel (write_loop-Wrote fuel) r w first
            (write_turn now samples total_frames r first) v whole h enough
            (write_turn-TurnEnds now samples total_frames r w first v whole small h))
  ]

module _ (now : ℕ) (samples : List ℕ) (total_frames : ℕ) (small : length samples < u64_mod)
    (r : SampleRing) (w : List ℕ) (v : Holds r w)
    (whole : length samples ≡ total_frames * r.cfg.channels) where
  unfolded_call :
      write_interleaved now samples r.cfg.channels r
      ≡ write_loop total_frames now samples total_frames r 0
  unfolding write_interleaved
  unfolded_call =
      let frames : length samples / r.cfg.channels ≡ total_frames =
        ap (λ t. t / r.cfg.channels) whole ∙ mul-div_left total_frames v.valid.some_channels in
      let rest : length samples % r.cfg.channels ≡ 0 =
        ap (λ t. t % r.cfg.channels) whole ∙ mul-mod_left total_frames r.cfg.channels in
      ground (arith, frames, rest, v.valid.some_channels)

  pub write_interleaved-Wrote :
      Wrote r w samples total_frames 0 (write_interleaved now samples r.cfg.channels r)
  write_interleaved-Wrote = rw unfolded_call (
      write_loop-Wrote now samples total_frames small total_frames r w 0 v whole (omega arith)
        (omega arith))

  prefix :
      (n : ℕ)
      → slice samples (0 * r.cfg.channels) ((n - 0) * r.cfg.channels)
        ≡ take (n * r.cfg.channels) samples
  unfolding slice
  prefix n =
      ap (λ a. take ((n - 0) * r.cfg.channels) (drop a samples)) zero_start
      ∙ ap (λ a. take (a * r.cfg.channels) samples) same
    where
      zero_start : 0 * r.cfg.channels ≡ 0
      zero_start = omega arith

      same : n - 0 ≡ n
      same = omega arith

  -- The head moves by the frames that are written.
  moved :
      (write_interleaved now samples r.cfg.channels r).0.global_write_frame
      ≡ r.global_write_frame + write_interleaved-Wrote.upto
  moved =
      let wrote = write_interleaved-Wrote in
      let head = (write_interleaved now samples r.cfg.channels r).0.global_write_frame in
      mul-right_cancel head (r.global_write_frame + wrote.upto) r.cfg.channels v.valid.some_channels
        (omega (
          arith,
          wrote.holds.recorded,
          ap (λ (c : RingConfig). head * c.channels) wrote.same_cfg,
          length-append w (slice samples (0 * r.cfg.channels) ((wrote.upto - 0) * r.cfg.channels)),
          v.recorded,
          ap length (prefix wrote.upto),
          length-take (wrote.upto * r.cfg.channels) samples,
          whole,
          mul-le-mul_right r.cfg.channels wrote.to,
        ))

  -- For an input of whole frames of the ring's channels, whatever happens, the ring then holds
  -- what it held, followed by some number of whole frames from the start of the input.
  pub write-records :
      (n : ℕ) × (n ≤ total_frames)
      × Holds
          (write_interleaved now samples r.cfg.channels r).0
          (w ++ take (n * r.cfg.channels) samples)
  write-records =
      let wrote = write_interleaved-Wrote in
      (
        wrote.upto,
        wrote.to,
        subst (λ l. Holds (write_interleaved now samples r.cfg.channels r).0 (w ++ l))
            (prefix wrote.upto) wrote.holds,
      )

  module _ (frames_room : r.global_write_frame + total_frames < u64_mod)
      (sequence_room : r.next_sequence + total_frames < u64_mod)
      (dropped_room : r.dropped_frames + total_frames < u64_mod) where
    accepted : (write_interleaved now samples r.cfg.channels r).1 ≡ ok tt
    accepted = write_interleaved-Wrote.succeeds (omega arith) (omega arith) (omega arith)

    -- For an input of whole frames, if no counter would overflow, the call succeeds, and each
    -- frame of the input is either recorded or counted as dropped.
    pub write-accounts :
        let (r', result) = write_interleaved now samples r.cfg.channels r in
        (result ≡ ok tt)
        × (r'.global_write_frame + r'.dropped_frames
            ≡ r.global_write_frame + r.dropped_frames + total_frames)
    write-accounts = (
      accepted,
      omega (arith, write_interleaved-Wrote.accounted accepted, moved, write_interleaved-Wrote.to),
    )
      where
        wrote : Wrote r w samples total_frames 0 (write_interleaved now samples r.cfg.channels r)
        wrote = write_interleaved-Wrote

    pub write-cfg : (write_interleaved now samples r.cfg.channels r).0.cfg ≡ r.cfg
    write-cfg = write_interleaved-Wrote.same_cfg

    pub write-clear :
        (write_interleaved now samples r.cfg.channels r).0.clear_after_frame ≡ r.clear_after_frame
    write-clear = write_interleaved-Wrote.same_clear

    pub write-snapshots :
        (write_interleaved now samples r.cfg.channels r).0.active_snapshots ≡ r.active_snapshots
    write-snapshots = write_interleaved-Wrote.same_snapshots

    pub write-IsUnpinned :
        IsUnpinned r → IsUnpinned (write_interleaved now samples r.cfg.channels r).0
    write-IsUnpinned u = write_interleaved-Wrote.stays_unpinned u

    pub write-moves :
        IsUnpinned r
        → (write_interleaved now samples r.cfg.channels r).0.global_write_frame
          ≡ r.global_write_frame + total_frames
    write-moves u = omega (arith, moved, write_interleaved-Wrote.complete u accepted)

    -- For an input of whole frames, if no counter would overflow and no snapshot holds a chunk,
    -- the call succeeds, the ring then holds what it held followed by the whole input, and nothing
    -- is counted as dropped.
    pub write_complete :
        IsUnpinned r
        → let (r', result) = write_interleaved now samples r.cfg.channels r in
          (result ≡ ok tt) × Holds r' (w ++ samples) × (r'.dropped_frames ≡ r.dropped_frames)
    write_complete u = (
      accepted,
      subst (λ l. Holds (write_interleaved now samples r.cfg.channels r).0 (w ++ l)) all
          wrote.holds,
      omega (arith, wrote.accounted accepted, done),
    )
      where
        wrote : Wrote r w samples total_frames 0 (write_interleaved now samples r.cfg.channels r)
        wrote = write_interleaved-Wrote

        done : wrote.upto ≡ total_frames
        done = wrote.complete u accepted

        all : slice samples (0 * r.cfg.channels) ((wrote.upto - 0) * r.cfg.channels) ≡ samples
        all =
            prefix wrote.upto
            ∙ take-all (wrote.upto * r.cfg.channels) samples
                (omega (arith, whole, ap (λ t. t * r.cfg.channels) done))

-- Input for another number of channels, for none, or not of whole frames is refused, and the ring
-- is left as it was.
pub write-refuses :
    (now : ℕ) (samples : List ℕ) (channels : ℕ) (r : SampleRing)
    → (channels ≢ r.cfg.channels) ⊎ (channels ≡ 0) ⊎ (length samples % channels ≢ 0)
    → write_interleaved now samples channels r ≡ (
      r,
      err (
          capture_invariant (
            if channels == r.cfg.channels
            then "input sample length is not whole frames"
            else "incoming channels do not match ring channels")),
    )
unfolding write_interleaved
write-refuses now samples channels r h = ground arith
