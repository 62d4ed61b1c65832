-- ===== src/Worker/Freezing.antt =====
-- `freeze`: the epochs are exchanged, the standby one emptied, and the stream goes on.
use last_audio_memory_buffer.Base.{
  ℕ, ◌+◌, ◌*◌, ◌<◌, ◌≡◌, ◌∙◌, refl, sym, ap, ap₂, subst, subst₂, List, drop, drop-all, arith,
  u64_mod, Option, none, some, sub_u64,
}
use last_audio_memory_buffer.Base.Error.{Result, ok, err, control_invariant}
use last_audio_memory_buffer.Ring.Reset.{emptied}
use last_audio_memory_buffer.Worker.{standby, Epoch, WorkerState, epoch, retire_and_reset}
use last_audio_memory_buffer.Worker.Commands.{
  FrozenDescriptor, freeze, freeze_range, exchange_epochs,
}
use last_audio_memory_buffer.Worker.Tracking.{Sound, Tracks, at_index_set, standby-standby}
use last_audio_memory_buffer.Worker.Retiring.{
  at_index_keep, retired_state, retire_form, emptied-Sound, frozen_start, taken_generation,
  descriptor_of, freeze_range_form,
}

-- What the exchange leaves of the worker `t`.
record Exchanged (t : WorkerState) (out : WorkerState) : Type 0 where
  swapped : out.active ≡ standby t.active
  new_epoch :
      epoch out (standby t.active) ≡ record (epoch t (standby t.active)) { base = t.absolute_head }
  old_epoch : epoch out t.active ≡ epoch t t.active
  same_head : out.absolute_head ≡ t.absolute_head
  same_channels : out.channels ≡ t.channels
  same_retired : out.retired_dropped_frames ≡ t.retired_dropped_frames

exchange-Exchanged :
    (start end : ℕ) (generation : Option ℕ) (t : WorkerState)
    → Exchanged t (exchange_epochs start end generation t).0
unfolding exchange_epochs
exchange-Exchanged start end none t = record {
  swapped = refl;
  new_epoch = at_index_set (standby t.active) _ t.first t.second;
  old_epoch = at_index_keep t.active _ t.first t.second;
  same_head = refl;
  same_channels = refl;
  same_retired = refl;
}
exchange-Exchanged start end (some generation) t = record {
  swapped = refl;
  new_epoch = at_index_set (standby t.active) _ t.first t.second;
  old_epoch = at_index_keep t.active _ t.first t.second;
  same_head = refl;
  same_channels = refl;
  same_retired = refl;
}

-- What a freeze leaves of the worker `s`, whose epochs held `stream`, and what it answers.
pub record Freezes (s : WorkerState) (stream : List ℕ) (committed_start : Option ℕ)
    (out : WorkerState × Result (Option FrozenDescriptor)) : Type 0 where
  pub answer : out.1 ≡ ok (descriptor_of committed_start s (taken_generation committed_start s))
  pub tracks : Tracks out.0 stream
  pub swapped : out.0.active ≡ standby s.active
  pub starts : (epoch out.0 out.0.active).base ≡ s.absolute_head
  pub empty : (epoch out.0 out.0.active).ring.global_write_frame ≡ 0
  pub keeps : epoch out.0 s.active ≡ epoch s s.active
  pub head : out.0.absolute_head ≡ s.absolute_head
  pub retired :
      out.0.retired_dropped_frames
      ≡ s.retired_dropped_frames + (epoch s (standby s.active)).ring.dropped_frames

-- The parts that a freeze is put together from.
module _ (s : WorkerState) (stream : List ℕ) (v : Tracks s stream) where
  abbrev retired_standby : WorkerState
  retired_standby = retired_state (standby s.active) s

  exchange-Tracks : (out : WorkerState) → Exchanged retired_standby out → Tracks out stream
  exchange-Tracks out x =
      let fresh = at_index_set (standby s.active) _ s.first s.second in
      let kept = at_index_keep s.active _ s.first s.second in
      let now_active : epoch out out.active ≡ record (epoch s (standby s.active)) {
        ring = emptied (epoch s (standby s.active)).ring;
        base = s.absolute_head;
      } =
        ap (epoch out) x.swapped
        ∙ x.new_epoch
        ∙ ap (λ (e : Epoch). record e { base = s.absolute_head }) fresh in
      let now_standby : epoch out (standby out.active) ≡ epoch s s.active =
        ap (λ i. epoch out (standby i)) x.swapped
        ∙ ap (epoch out) (standby-standby s.active)
        ∙ x.old_epoch
        ∙ kept in
      record {
        streamed = v.streamed ∙ sym (ap₂ ◌*◌ x.same_head x.same_channels);
        active_sound =
            subst₂ (λ (e : Epoch) c. Sound c e.ring (drop (e.base * c) stream)) (sym now_active)
              (sym x.same_channels)
              (subst (Sound s.channels (emptied (epoch s (standby s.active)).ring))
                (sym (drop-all (s.absolute_head * s.channels) stream (omega (arith, v.streamed))))
                (emptied-Sound v.standby_sound));
        head =
            ap (λ (e : Epoch). e.base + e.ring.global_write_frame) now_active
            ∙ omega (arith, x.same_head);
        standby_held = _;
        standby_sound =
            subst₂
              (λ (e : Epoch) c. Sound c e.ring (drop ((epoch s s.active).base * s.channels) stream))
              (sym now_standby) (sym x.same_channels) v.active_sound;
      }

  exchange_answer :
      (committed_start generation : Option ℕ)
      → (exchange_epochs
          (frozen_start committed_start s)
          s.absolute_head
          generation
          retired_standby).1
        ≡ descriptor_of committed_start s generation
  unfolding exchange_epochs
  exchange_answer committed_start none = refl
  exchange_answer committed_start (some generation) =
      ap
        (λ (e : Epoch). some (record {
          index = s.active;
          generation = generation;
          base = e.base;
          absolute_start = frozen_start committed_start s;
          absolute_end = s.absolute_head;
          local_start = sub_u64 (frozen_start committed_start s) e.base;
          local_end = e.ring.global_write_frame;
          channels = s.channels;
          sample_rate = s.sample_rate;
        }))
        (at_index_keep s.active _ s.first s.second)

  module _ (committed_start : Option ℕ) (idle : s.frozen ≡ none)
      (counted : s.absolute_head < u64_mod) (generations : s.next_generation + 1 < u64_mod)
      (retires : s.retired_dropped_frames + (epoch s (standby s.active)).ring.dropped_frames
        < u64_mod) where
    abbrev exchanged : WorkerState × Option FrozenDescriptor
    exchanged =
        exchange_epochs (frozen_start committed_start s) s.absolute_head
          (taken_generation committed_start s) retired_standby

    freeze_form : freeze committed_start s ≡ (exchanged.0, ok exchanged.1)
    unfolding freeze
    freeze_form =
        ap
          (λ f. elim f as (λ _. WorkerState × Result (Option FrozenDescriptor)) [
            | some frozen ↦ (s, err (control_invariant "a frozen capture epoch is already pending"))
            | none ↦ after_range (freeze_range committed_start s)
          ])
          idle
        ∙ ap after_range (freeze_range_form s stream v committed_start counted generations)
        ∙ ap after_retire
            (retire_form (standby s.active) s v.standby_held s.channels v.standby_sound retires)
      where
        after_retire :
            WorkerState × Result (Unit {0}) → WorkerState × Result (Option FrozenDescriptor)
        after_retire retired = elim retired.1 [
          | err e ↦ (retired.0, err e)
          | ok _ ↦
              let t =
                exchange_epochs (frozen_start committed_start s) s.absolute_head
                  (taken_generation committed_start s) retired.0 in
              (t.0, ok t.1)
        ]

        after_range : Result (ℕ × ℕ × Option ℕ) → WorkerState × Result (Option FrozenDescriptor)
        after_range (err e) = (s, err e)
        after_range (ok (absolute_start, absolute_end, generation)) =
            let retired = retire_and_reset (standby s.active) s in
            elim retired.1 [
              | err e ↦ (retired.0, err e)
              | ok _ ↦
                  let t = exchange_epochs absolute_start absolute_end generation retired.0 in
                  (t.0, ok t.1)
            ]

    freezes : Freezes s stream committed_start (exchanged.0, ok exchanged.1)
    freezes =
        let x =
          exchange-Exchanged (frozen_start committed_start s) s.absolute_head
            (taken_generation committed_start s) retired_standby in
        let fresh = at_index_set (standby s.active) _ s.first s.second in
        let now_active : epoch exchanged.0 exchanged.0.active
            ≡ record (epoch s (standby s.active)) {
              ring = emptied (epoch s (standby s.active)).ring;
              base = s.absolute_head;
            } =
          ap (epoch exchanged.0) x.swapped
          ∙ x.new_epoch
          ∙ ap (λ (e : Epoch). record e { base = s.absolute_head }) fresh in
        record {
          answer = ap ok (exchange_answer committed_start (taken_generation committed_start s));
          tracks = exchange-Tracks exchanged.0 x;
          swapped = x.swapped;
          starts = ap (λ (e : Epoch). e.base) now_active;
          empty = ap (λ (e : Epoch). e.ring.global_write_frame) now_active;
          keeps = x.old_epoch ∙ at_index_keep s.active _ s.first s.second;
          head = x.same_head;
          retired = x.same_retired;
        }

    -- A freeze of a worker whose epochs hold the stream, with none frozen and room in its counters,
    -- succeeds. It answers a descriptor of the range from `committed_start`, or from the oldest
    -- retained frame where that is later or none is given, up to the head, or none where that
    -- range is empty. The epochs are exchanged: the active one is empty and starts at the head,
    -- the frozen one is as it was, and the epochs hold the same stream as before.
    pub freeze_lem : Freezes s stream committed_start (freeze committed_start s)
    freeze_lem = subst (Freezes s stream committed_start) (sym freeze_form) freezes
