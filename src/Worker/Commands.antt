-- ===== src/Worker/Commands.antt =====
-- The commands that the worker carries out on its epochs: freeze, release, clear and status.
use last_audio_memory_buffer.Base.{
  ℕ, max, Bool, not, ◌||◌, if◌then◌else◌, ltb, ◌==◌, List, Option, none, some, checked_add, sub_u64,
}
use last_audio_memory_buffer.Base.Error.{
  Result, ok, err, control_invariant, export_invariant, ok_or, ◌>>=◌,
}
use last_audio_memory_buffer.Ring.Copy.{oldest_frame, copy_interleaved_range_into}
use last_audio_memory_buffer.Worker.{
  EpochIndex, standby, same_index, WorkerState, epoch, set_epoch, retire_and_reset,
}

-- `FrozenDescriptor`, with its ring by index.
pub record FrozenDescriptor : Type 0 where
  pub index : EpochIndex
  pub generation : ℕ
  pub base : ℕ
  pub absolute_start : ℕ
  pub absolute_end : ℕ
  pub local_start : ℕ
  pub local_end : ℕ
  pub channels : ℕ
  pub sample_rate : ℕ

-- The generation that a freeze of `start..end` takes: none where nothing is left to freeze.
unfoldable pub frozen_generation : ℕ → ℕ → ℕ → Result (Option ℕ)
frozen_generation next_generation start end =
    if ltb start end
    then elim (checked_add next_generation 1) [
      | none ↦ err (control_invariant "frozen epoch generation exhausted")
      | some generation ↦ ok (some generation)
    ]
    else ok none

-- The range that a freeze covers, and its generation.
unfoldable pub freeze_range : Option ℕ → WorkerState → Result (ℕ × ℕ × Option ℕ)
unfolding oldest_frame frozen_generation
freeze_range committed_start s = do
  absolute_end ←
      ok_or (checked_add (epoch s s.active).base (epoch s s.active).ring.global_write_frame)
        (control_invariant "absolute capture frame counter exhausted")
  absolute_oldest ←
      ok_or (checked_add (epoch s s.active).base (oldest_frame (epoch s s.active).ring))
        (control_invariant "absolute capture frame counter exhausted")
  let absolute_start : ℕ = elim committed_start [
    | none ↦ absolute_oldest
    | some start ↦ max start absolute_oldest
  ]
  generation ← frozen_generation s.next_generation absolute_start absolute_end
  ok (absolute_start, absolute_end, generation)

-- The end of a freeze, after the standby epoch is reset: the epochs are exchanged.
unfoldable pub exchange_epochs :
    ℕ → ℕ → Option ℕ → WorkerState → WorkerState × Option FrozenDescriptor
unfolding sub_u64
exchange_epochs absolute_start absolute_end generation s =
    let old = s.active in
    let old_base = (epoch s old).base in
    let local_end = (epoch s old).ring.global_write_frame in
    let s' : WorkerState =
      record (set_epoch (standby old) (record (epoch s (standby old)) { base = s.absolute_head })
        s) { active = standby old } in
    elim generation [
      | none ↦ (s', none)
      | some generation ↦ (
        record s' {
          next_generation = generation;
          frozen = some (record { index = old; generation = generation });
        },
        some (record {
          index = old;
          generation = generation;
          base = old_base;
          absolute_start = absolute_start;
          absolute_end = absolute_end;
          local_start = sub_u64 absolute_start old_base;
          local_end = local_end;
          channels = s.channels;
          sample_rate = s.sample_rate;
        }),
      )
    ]

-- `freeze`
unfoldable pub freeze : Option ℕ → WorkerState → WorkerState × Result (Option FrozenDescriptor)
unfolding freeze_range exchange_epochs retire_and_reset
freeze committed_start s = elim s.frozen [
  | some frozen ↦ (s, err (control_invariant "a frozen capture epoch is already pending"))
  | none ↦ elim (freeze_range committed_start s) [
    | err e ↦ (s, err e)
    | ok (absolute_start, absolute_end, generation) ↦
        let retired = retire_and_reset (standby s.active) s in
        elim retired.1 [
          | err e ↦ (retired.0, err e)
          | ok _ ↦
              let exchanged = exchange_epochs absolute_start absolute_end generation retired.0 in
              (exchanged.0, ok exchanged.1)
        ]
  ]
]

-- `release`
unfoldable pub release : EpochIndex → ℕ → WorkerState → WorkerState × Result (Unit {0})
unfolding retire_and_reset
release index generation s = elim s.frozen [
  | none ↦ (s, err (control_invariant "no frozen capture epoch pending"))
  | some frozen ↦
      if not (same_index frozen.index index) || not (frozen.generation == generation)
      then (s, err (control_invariant "frozen capture capability does not match worker state"))
      else let retired = retire_and_reset index s in
        elim retired.1 [
          | err e ↦ (retired.0, err e)
          | ok _ ↦ (record retired.0 { frozen = none }, ok tt)
        ]
]

-- `FrozenCaptureEpoch`, less what only its caller's bookkeeping reads.
pub record FrozenCaptureEpoch : Type 0 where
  pub descriptor : FrozenDescriptor
  pub released : Bool
  pub release_pending : Bool

-- `FrozenCaptureEpoch::copy_interleaved_range_into`, from the ring that the capability names.
unfoldable pub copy_frozen : FrozenCaptureEpoch → ℕ → ℕ → List ℕ → WorkerState → List ℕ × Result ℕ
unfolding copy_interleaved_range_into sub_u64
copy_frozen f start end destination s =
    if f.released
    then (destination, err (export_invariant "frozen capture epoch was released"))
    else if f.release_pending
    then (destination, err (export_invariant "frozen capture release is pending"))
    else if ltb start f.descriptor.absolute_start
        || ltb f.descriptor.absolute_end end
        || ltb end start
    then (destination, err (export_invariant "requested absolute range is outside frozen range"))
    else copy_interleaved_range_into (epoch s f.descriptor.index).ring
        (sub_u64 start f.descriptor.base) (sub_u64 end f.descriptor.base) destination
