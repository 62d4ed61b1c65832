-- ===== src/Worker/Frozen.antt =====
-- A frozen epoch while the worker goes on recording: what its capability copies out.
use last_audio_memory_buffer.Base.{
  ℕ, ◌+◌, ◌-◌, ◌*◌, ◌<◌, ◌≤◌, ◌≡◌, ◌∙◌, refl, sym, ap, ap₂, min, List, [], ◌∷◌, ◌++◌, length, drop,
  drop-drop, take, slice, arith, u64_mod, Option, none, some, false, le→ltb_false, sub_u64,
  sub_u64_lem,
}
use last_audio_memory_buffer.Base.Error.{ok}
use last_audio_memory_buffer.Ring.Copy.{oldest_frame, copy_interleaved_range_into}
use last_audio_memory_buffer.Ring.Reading.{copy-exact}
use last_audio_memory_buffer.Worker.{standby, Epoch, WorkerState, epoch, consume_samples}
use last_audio_memory_buffer.Worker.Commands.{FrozenCaptureEpoch, freeze, copy_frozen}
use last_audio_memory_buffer.Worker.Tracking.{Tracks, consume-KeepsStandby, standby-standby}
use last_audio_memory_buffer.Worker.Retiring.{frozen_start}
use last_audio_memory_buffer.Worker.Freezing.{freeze_lem}

-- A block that the worker consumes: the clock's reading, the samples, and their frames.
pub record Block : Type 0 where
  pub now : ℕ
  pub samples : List ℕ
  pub frames : ℕ

unfoldable pub consume_all : List Block → WorkerState → WorkerState
unfolding consume_samples
consume_all [] s = s
consume_all (b ∷ bs) s = consume_all bs (consume_samples b.now b.samples b.frames s)

consume_all-keeps :
    (blocks : List Block) (s : WorkerState)
    → epoch (consume_all blocks s) (standby s.active) ≡ epoch s (standby s.active)
unfolding consume_all
consume_all-keeps [] s = refl
consume_all-keeps (b ∷ bs) s =
    let k = consume-KeepsStandby b.now b.samples b.frames s in
    let rest = consume_all-keeps bs (consume_samples b.now b.samples b.frames s) in
    ap (λ i. epoch (consume_all bs (consume_samples b.now b.samples b.frames s)) (standby i))
      (sym k.same_active)
    ∙ rest
    ∙ ap (λ i. epoch (consume_samples b.now b.samples b.frames s) (standby i)) k.same_active
    ∙ k.same_epoch

-- The capability that a freeze of `s` gives, before its release.
abbrev pub capability : Option ℕ → ℕ → WorkerState → FrozenCaptureEpoch
capability committed_start generation s = record {
  descriptor = record {
    index = s.active;
    generation = generation;
    base = (epoch s s.active).base;
    absolute_start = frozen_start committed_start s;
    absolute_end = s.absolute_head;
    local_start = sub_u64 (frozen_start committed_start s) (epoch s s.active).base;
    local_end = (epoch s s.active).ring.global_write_frame;
    channels = s.channels;
    sample_rate = s.sample_rate;
  };
  released = false;
  release_pending = false;
}

module _ (s : WorkerState) (stream : List ℕ) (v : Tracks s stream) (committed_start : Option ℕ)
    (generation : ℕ) (counted : s.absolute_head < u64_mod) (start end frames : ℕ)
    (destination : List ℕ) (from : frozen_start committed_start s ≤ start) (le : start ≤ end)
    (to : end ≤ s.absolute_head) (whole : length destination ≡ frames * s.channels)
    (small : length destination < u64_mod) (room : start + frames < u64_mod) where
  after_oldest : (epoch s s.active).base + oldest_frame (epoch s s.active).ring ≤ start
  after_oldest = from_committed committed_start from
    where
      from_committed :
          (c : Option ℕ)
          → frozen_start c s ≤ start
          → (epoch s s.active).base + oldest_frame (epoch s s.active).ring ≤ start
      from_committed none h = h
      from_committed (some c) h = omega (arith, h)

  -- The copy from a worker whose frozen epoch is still the one of `s`.
  copy_kept :
      (t : WorkerState)
      → epoch t s.active ≡ epoch s s.active
      → copy_frozen (capability committed_start generation s) start end destination t ≡ (
        slice stream (start * s.channels) (min (end - start) frames * s.channels)
            ++ drop (min (end - start) frames * s.channels) destination,
        ok (min (end - start) frames),
      )
  unfolding copy_frozen slice
  copy_kept t same =
      rw
        (
          copy_frozen,
          le→ltb_false start (frozen_start committed_start s) from,
          le→ltb_false s.absolute_head end to,
          le→ltb_false end start le,
        )
        refl
      ∙ ap₂ (λ a b. copy_interleaved_range_into (epoch t s.active).ring a b destination)
          (sub_u64_lem start base (omega (arith, after_oldest)) (omega (arith, counted, le, to)))
          (sub_u64_lem end base (omega (arith, after_oldest, le)) (omega (arith, counted, to)))
      ∙ ap
          (λ (e : Epoch).
            copy_interleaved_range_into e.ring (start - base) (end - base) destination)
          same
      ∙ (copy-exact (start - base) (end - base) frames destination v.active_sound.holds
            (omega (arith, after_oldest)) (omega (arith, le)) (omega (arith, to, v.head))
            (whole ∙ ap (λ c. frames * c) (sym v.active_sound.same_channels)) small
            (omega (arith, room))
          ∙ ap₂
              (λ c n. (
                slice (drop (base * s.channels) stream) ((start - base) * c) (min n frames * c)
                    ++ drop (min n frames * c) destination,
                ok (min n frames),
              ))
              v.active_sound.same_channels count
          ∙ ap
              (λ l. (
                l ++ drop (min (end - start) frames * s.channels) destination,
                ok (min (end - start) frames),
              ))
              (at_start (min (end - start) frames * s.channels)))
    where
      base : ℕ
      base = (epoch s s.active).base

      count : end - base - (start - base) ≡ end - start
      count = omega (arith, after_oldest, le)

      at_start :
          (n : ℕ)
          → slice (drop (base * s.channels) stream) ((start - base) * s.channels) n
            ≡ slice stream (start * s.channels) n
      at_start n = ap (take n) (
          drop-drop (base * s.channels) ((start - base) * s.channels) (start * s.channels) stream (
            ap (λ k. k * s.channels) {x = start} {y = base + (start - base)}
              (omega (arith, after_oldest))
            ∙ omega arith))

  -- After a freeze of a worker whose epochs hold the stream, with none frozen and room in its
  -- counters, and after the worker has consumed any blocks, with success or not: a copy of any
  -- range that the capability covers, into a destination of whole frames and fewer than 2 ^ 64
  -- samples, where the start and the frames of the destination together stay below 2 ^ 64, gives
  -- the samples of the stream in that range, as many frames as the destination has room for, and
  -- leaves the rest of the destination.
  pub copy-freeze :
      s.frozen ≡ none
      → s.next_generation + 1 < u64_mod
      → s.retired_dropped_frames + (epoch s (standby s.active)).ring.dropped_frames < u64_mod
      → (blocks : List Block)
      → copy_frozen
          (capability committed_start generation s)
          start
          end
          destination
          (consume_all blocks (freeze committed_start s).0)
        ≡ (
          slice stream (start * s.channels) (min (end - start) frames * s.channels)
              ++ drop (min (end - start) frames * s.channels) destination,
          ok (min (end - start) frames),
        )
  copy-freeze idle generations retires blocks =
      let f = freeze_lem s stream v committed_start idle counted generations retires in
      let frozen = (freeze committed_start s).0 in
      let other : standby frozen.active ≡ s.active =
        ap standby f.swapped ∙ standby-standby s.active in
      copy_kept (consume_all blocks frozen) (
        ap (epoch (consume_all blocks frozen)) (sym other)
        ∙ consume_all-keeps blocks frozen
        ∙ ap (epoch frozen) other
        ∙ f.keeps)
