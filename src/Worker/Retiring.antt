-- ===== src/Worker/Retiring.antt =====
-- The parts of a freeze before the epochs are exchanged: its range, and the reset of the standby
-- epoch.
use last_audio_memory_buffer.Base.{
  ℕ, ◌+◌, ◌<◌, ◌≤◌, ◌≡◌, refl, ap, subst, List, [], arith, u64_mod, max, Option, none, some,
  checked_add_lem, each_branch, ltb, if◌then◌else◌, sub_u64,
}
use last_audio_memory_buffer.Base.Error.{ok}
use last_audio_memory_buffer.Ring.{SampleRing}
use last_audio_memory_buffer.Ring.Copy.{oldest_frame, status}
use last_audio_memory_buffer.Ring.Holds.{Holds}
use last_audio_memory_buffer.Ring.Oldest.{status_within}
use last_audio_memory_buffer.Ring.Recording.{IsUnpinned}
use last_audio_memory_buffer.Ring.Reset.{emptied, reset_succeeds, reset-Holds}
use last_audio_memory_buffer.Worker.{
  EpochIndex, epoch_0, epoch_1, standby, at_index, FrozenRecord, WorkerState, epoch, set_epoch,
  retire_and_reset, latest_overrun,
}
use last_audio_memory_buffer.Worker.Commands.{FrozenDescriptor, freeze_range, frozen_generation}
use last_audio_memory_buffer.Worker.Tracking.{Sound, Tracks}

pub at_index_keep {ℓ} :
    {A : Type ℓ} (i : EpochIndex) (e a b : A)
    → at_index i (at_index (standby i) e a) (at_index (standby i) b e) ≡ at_index i a b
at_index_keep epoch_0 e a b = refl
at_index_keep epoch_1 e a b = refl

-- What `retire_and_reset` leaves where it succeeds.
abbrev pub retired_state : EpochIndex → WorkerState → WorkerState
retired_state i s =
    record (set_epoch i (record (epoch s i) { ring = emptied (epoch s i).ring }) s) {
      retired_dropped_frames = s.retired_dropped_frames + (epoch s i).ring.dropped_frames;
      retired_last_overrun = latest_overrun s.retired_last_overrun (epoch s i).ring.last_overrun;
    }

pub retire_form :
    (i : EpochIndex) (s : WorkerState) (w : List ℕ) (channels : ℕ)
    → Sound channels (epoch s i).ring w
    → s.retired_dropped_frames + (epoch s i).ring.dropped_frames < u64_mod
    → retire_and_reset i s ≡ (retired_state i s, ok tt)
unfolding retire_and_reset status
retire_form i s w channels v room =
    rw
      (
        retire_and_reset,
        checked_add_lem s.retired_dropped_frames (epoch s i).ring.dropped_frames room,
        reset_succeeds v.holds v.unpinned v.inactive,
      )
      (ap
        (λ (ring : SampleRing). (
          record (set_epoch i (record (epoch s i) { ring = ring }) s) {
            retired_dropped_frames = s.retired_dropped_frames + (epoch s i).ring.dropped_frames;
            retired_last_overrun =
                latest_overrun s.retired_last_overrun (epoch s i).ring.last_overrun;
          },
          ok tt,
        ))
        (ap (λ t. t.0) (reset_succeeds v.holds v.unpinned v.inactive)))

pub emptied-Sound :
    {channels : ℕ} {r : SampleRing} {w : List ℕ}
    → Sound channels r w
    → Sound channels (emptied r) []
emptied-Sound {channels} {r} v =
    let done = reset_succeeds v.holds v.unpinned v.inactive in
    let (holds, unpinned, _, _) = reset-Holds v.holds (ap (λ t. t.1) done) in
    record {
      holds = subst (λ t. Holds t []) (ap (λ t. t.0) done) holds;
      unpinned = subst IsUnpinned (ap (λ t. t.0) done) unpinned;
      inactive = v.inactive;
      same_channels = v.same_channels;
    }

-- Where the range of a freeze starts.
abbrev pub frozen_start : Option ℕ → WorkerState → ℕ
frozen_start committed_start s = elim committed_start [
  | none ↦ (epoch s s.active).base + oldest_frame (epoch s s.active).ring
  | some start ↦ max start ((epoch s s.active).base + oldest_frame (epoch s s.active).ring)
]

-- The generation that it takes, if something is left to freeze.
abbrev pub taken_generation : Option ℕ → WorkerState → Option ℕ
taken_generation committed_start s =
    if ltb (frozen_start committed_start s) s.absolute_head
    then some (s.next_generation + 1)
    else none

abbrev pub descriptor_of : Option ℕ → WorkerState → Option ℕ → Option FrozenDescriptor
descriptor_of committed_start s none = none
descriptor_of committed_start s (some generation) = some (record {
  index = s.active;
  generation = generation;
  base = (epoch s s.active).base;
  absolute_start = frozen_start committed_start s;
  absolute_end = s.absolute_head;
  local_start = sub_u64 (frozen_start committed_start s) (epoch s s.active).base;
  local_end = (epoch s s.active).ring.global_write_frame;
  channels = s.channels;
  sample_rate = s.sample_rate;
})

abbrev pub record_of : WorkerState → Option ℕ → Option FrozenRecord
record_of s none = none
record_of s (some generation) = some (record { index = s.active; generation = generation })

module _ (s : WorkerState) (stream : List ℕ) (v : Tracks s stream) (committed_start : Option ℕ)
    (counted : s.absolute_head < u64_mod) (generations : s.next_generation + 1 < u64_mod) where
  pub oldest_within :
      oldest_frame (epoch s s.active).ring ≤ (epoch s s.active).ring.global_write_frame
  oldest_within = omega (arith, (status_within v.active_sound.holds).1)

  pub generation_form :
      (start end : ℕ)
      → frozen_generation s.next_generation start end
        ≡ ok (if ltb start end then some (s.next_generation + 1) else none)
  unfolding frozen_generation
  generation_form start end =
      each_branch (λ (o : Option ℕ). frozen_generation s.next_generation start end ≡ ok o)
        (ltb start end)
        (λ t. rw (frozen_generation, t, checked_add_lem s.next_generation 1 generations) refl)
        (λ f. rw (frozen_generation, f) refl)

  pub freeze_range_form :
      freeze_range committed_start s
      ≡ ok (frozen_start committed_start s, s.absolute_head, taken_generation committed_start s)
  unfolding freeze_range
  freeze_range_form =
      rw
        (
          freeze_range,
          checked_add_lem (epoch s s.active).base (epoch s s.active).ring.global_write_frame
              (omega (arith, counted, v.head)),
          checked_add_lem (epoch s s.active).base (oldest_frame (epoch s s.active).ring)
              (omega (arith, counted, v.head, oldest_within)),
          generation_form (frozen_start committed_start s)
              ((epoch s s.active).base + (epoch s s.active).ring.global_write_frame),
        )
        (ap
          (λ (end : ℕ). ok (
            frozen_start committed_start s,
            end,
            (if ltb (frozen_start committed_start s) end
                then some (s.next_generation + 1)
                else none),
          ))
          v.head)
