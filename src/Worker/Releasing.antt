-- ===== src/Worker/Releasing.antt =====
-- `release`: who may give the frozen epoch back, and what is left of it.
use last_audio_memory_buffer.Base.{
  ℕ, ◌+◌, ◌*◌, ◌<◌, ◌≡◌, ◌∙◌, refl, sym, ap, ap₂, subst, List, [], drop, u64_mod, true, not, ◌||◌,
  if◌then◌else◌, none, some, ◌==◌, ==_self,
}
use last_audio_memory_buffer.Base.Error.{Result, ok, err, control_invariant}
use last_audio_memory_buffer.Worker.{
  EpochIndex, epoch_0, epoch_1, standby, same_index, Epoch, WorkerState, epoch, retire_and_reset,
}
use last_audio_memory_buffer.Worker.Commands.{release}
use last_audio_memory_buffer.Worker.Tracking.{Sound, Tracks, at_index_set}
use last_audio_memory_buffer.Worker.Retiring.{
  retired_state, retire_form, emptied-Sound, at_index_keep,
}

same_index_self : (i : EpochIndex) → same_index i i ≡ true
same_index_self epoch_0 = refl
same_index_self epoch_1 = refl

-- What a release leaves of the worker `s`, whose epochs held `stream`.
pub record Releases (s : WorkerState) (stream : List ℕ) (out : WorkerState × Result (Unit {0}))
    : Type 0 where
  pub answer : out.1 ≡ ok tt
  pub tracks : Tracks out.0 stream
  pub nothing_frozen : out.0.frozen ≡ none
  pub same_active : out.0.active ≡ s.active
  pub keeps_active : epoch out.0 s.active ≡ epoch s s.active
  pub empty : (epoch out.0 (standby s.active)).ring.global_write_frame ≡ 0
  pub no_drops : (epoch out.0 (standby s.active)).ring.dropped_frames ≡ 0
  pub retired :
      out.0.retired_dropped_frames
      ≡ s.retired_dropped_frames + (epoch s (standby s.active)).ring.dropped_frames

module _ (s : WorkerState) (stream : List ℕ) (v : Tracks s stream) (generation : ℕ)
    (frozen : s.frozen ≡ some (record { index = standby s.active; generation = generation }))
    (retires : s.retired_dropped_frames + (epoch s (standby s.active)).ring.dropped_frames
      < u64_mod) where
  release_form :
      release (standby s.active) generation s
      ≡ (record (retired_state (standby s.active) s) { frozen = none }, ok tt)
  unfolding release
  release_form =
      ap
        (λ f. elim f as (λ _. WorkerState × Result (Unit {0})) [
          | none ↦ (s, err (control_invariant "no frozen capture epoch pending"))
          | some record_ ↦
              if not (same_index record_.index (standby s.active))
                || not (record_.generation == generation)
              then (
                s,
                err (control_invariant "frozen capture capability does not match worker state"),
              )
              else after_retire (retire_and_reset (standby s.active) s)
        ])
        frozen
      ∙ ap₂
          (λ a b.
            if not a || not b
            then (
              s,
              err (control_invariant "frozen capture capability does not match worker state"),
            )
            else after_retire (retire_and_reset (standby s.active) s))
          (same_index_self (standby s.active)) (==_self generation)
      ∙ ap after_retire
          (retire_form (standby s.active) s v.standby_held s.channels v.standby_sound retires)
    where
      after_retire : WorkerState × Result (Unit {0}) → WorkerState × Result (Unit {0})
      after_retire retired = elim retired.1 [
        | err e ↦ (retired.0, err e)
        | ok _ ↦ (record retired.0 { frozen = none }, ok tt)
      ]

  -- A release with the index and the generation of the frozen epoch, which is the standby one,
  -- where the epochs hold the stream and the count of dropped frames has room: it succeeds, the
  -- standby epoch is empty, the frames it had dropped are kept in the total, nothing is frozen any
  -- more, and the active epoch is untouched, so that the epochs hold the same stream.
  pub release_lem : Releases s stream (release (standby s.active) generation s)
  release_lem =
      let other = at_index_set (standby s.active) _ s.first s.second in
      let kept = at_index_keep s.active _ s.first s.second in
      subst (Releases s stream) (sym release_form) (record {
        answer = refl;
        tracks = record {
          streamed = v.streamed;
          active_sound =
              subst (λ (e : Epoch). Sound s.channels e.ring (drop (e.base * s.channels) stream))
                (sym kept) v.active_sound;
          head = ap (λ (e : Epoch). e.base + e.ring.global_write_frame) kept ∙ v.head;
          standby_held = [];
          standby_sound =
              subst (λ (e : Epoch). Sound s.channels e.ring []) (sym other)
                (emptied-Sound v.standby_sound);
        };
        nothing_frozen = refl;
        same_active = refl;
        keeps_active = kept;
        empty = ap (λ (e : Epoch). e.ring.global_write_frame) other;
        no_drops = ap (λ (e : Epoch). e.ring.dropped_frames) other;
        retired = refl;
      })
