-- ===== src/Worker/Tracking.antt =====
-- What the epochs hold of the recording: the stream of all samples that the worker has recorded.
use native.Mathlib.Nat.{mul-le-mul_right}
use last_audio_memory_buffer.Base.{
  ℕ, ◌+◌, ◌*◌, ◌<◌, ◌≤◌, ◌≡◌, ◌∙◌, refl, sym, ap, subst, List, ◌++◌, length, length-append, drop,
  drop-append, arith, u64_mod, none, checked_add, checked_add_lem, each_option,
}
use last_audio_memory_buffer.Base.Error.{ok, each_result}
use last_audio_memory_buffer.Ring.{SampleRing, RingConfig}
use last_audio_memory_buffer.Ring.Write.{write_interleaved}
use last_audio_memory_buffer.Ring.Holds.{Holds}
use last_audio_memory_buffer.Ring.Recording.{IsUnpinned}
use last_audio_memory_buffer.Ring.Writing.{
  write_complete, write-cfg, write-snapshots, write-IsUnpinned, write-moves,
}
use last_audio_memory_buffer.Ingress.{add_cumulative_dropped_frames}
use last_audio_memory_buffer.Worker.{
  EpochIndex, epoch_0, epoch_1, standby, at_index, Epoch, WorkerState, epoch, set_epoch,
  consume_samples, drop_worker_frames,
}

-- The epoch just set, and the other one.
pub at_index_set {ℓ} :
    {A : Type ℓ} (i : EpochIndex) (e a b : A) → at_index i (at_index i e a) (at_index i b e) ≡ e
at_index_set epoch_0 e a b = refl
at_index_set epoch_1 e a b = refl

pub at_index_other {ℓ} :
    {A : Type ℓ} (i : EpochIndex) (e a b : A)
    → at_index (standby i) (at_index i e a) (at_index i b e) ≡ at_index (standby i) a b
at_index_other epoch_0 e a b = refl
at_index_other epoch_1 e a b = refl

pub standby-standby : (i : EpochIndex) → standby (standby i) ≡ i
standby-standby epoch_0 = refl
standby-standby epoch_1 = refl

-- A ring that holds `w`, has this number of channels, and that no snapshot holds.
pub record Sound (channels : ℕ) (r : SampleRing) (w : List ℕ) : Type 0 where
  pub holds : Holds r w
  pub unpinned : IsUnpinned r
  pub inactive : r.active_snapshots ≡ 0
  pub same_channels : r.cfg.channels ≡ channels

-- The active epoch holds the stream from its base on; the standby epoch holds something.
pub record Tracks (s : WorkerState) (stream : List ℕ) : Type 0 where
  pub streamed : length stream ≡ s.absolute_head * s.channels
  pub active_sound :
      Sound s.channels (epoch s s.active).ring (drop ((epoch s s.active).base * s.channels) stream)
  pub head : (epoch s s.active).base + (epoch s s.active).ring.global_write_frame ≡ s.absolute_head
  pub standby_held : List ℕ
  pub standby_sound : Sound s.channels (epoch s (standby s.active)).ring standby_held

-- The counters have room for `frames` more frames.
pub record HasRoom (s : WorkerState) (frames : ℕ) : Type 0 where
  pub positions : s.absolute_head + frames < u64_mod
  pub written : s.worker_written_frames + frames < u64_mod
  pub sequences : (epoch s s.active).ring.next_sequence + frames < u64_mod
  pub drops : (epoch s s.active).ring.dropped_frames + frames < u64_mod

module _ (now : ℕ) (samples : List ℕ) (frames : ℕ) (s : WorkerState) where
  -- What consuming changes where it succeeds.
  abbrev pub consumed : WorkerState
  consumed =
      record (set_epoch s.active
        (record (epoch s s.active) {
          ring = (write_interleaved now samples s.channels (epoch s s.active).ring).0;
        })
        s) {
          absolute_head = s.absolute_head + frames;
          worker_written_frames = s.worker_written_frames + frames;
          worker_fault = none;
        }

  module _ (stream : List ℕ) (v : Tracks s stream) (healthy : s.worker_fault ≡ none)
      (whole : length samples ≡ frames * s.channels) (small : length samples < u64_mod)
      (room : HasRoom s frames) where
    ring : SampleRing
    ring = (epoch s s.active).ring

    written :
        ((write_interleaved now samples s.channels ring).1 ≡ ok tt)
        × Sound s.channels
            (write_interleaved now samples s.channels ring).0
            (drop ((epoch s s.active).base * s.channels) stream ++ samples)
        × ((write_interleaved now samples s.channels ring).0.global_write_frame
            ≡ ring.global_write_frame + frames)
    unfolding ring
    written = subst Written v.active_sound.same_channels (
        let h = v.active_sound in
        let whole' : length samples ≡ frames * ring.cfg.channels =
          whole ∙ ap (λ c. frames * c) (sym h.same_channels) in
        let held = drop ((epoch s s.active).base * s.channels) stream in
        let p : ring.global_write_frame + frames < u64_mod =
          omega (arith, room.positions, v.head) in
        let (fine, holds, _) =
          write_complete now samples frames small ring held h.holds whole' p room.sequences
            room.drops h.unpinned in
        (
          fine,
          record {
            holds = holds;
            unpinned =
                write-IsUnpinned now samples frames small ring held h.holds whole' p room.sequences
                  room.drops h.unpinned;
            inactive =
                write-snapshots now samples frames small ring held h.holds whole' p room.sequences
                  room.drops
                ∙ h.inactive;
            same_channels =
                ap (λ (c : RingConfig). c.channels)
                  (write-cfg now samples frames small ring held h.holds whole' p room.sequences
                    room.drops)
                ∙ h.same_channels;
          },
          write-moves now samples frames small ring held h.holds whole' p room.sequences room.drops
              h.unpinned,
        ))
      where
        Written : ℕ → Type 0
        Written channels =
            ((write_interleaved now samples channels ring).1 ≡ ok tt)
            × Sound s.channels (write_interleaved now samples channels ring).0
                (drop ((epoch s s.active).base * s.channels) stream ++ samples)
            × ((write_interleaved now samples channels ring).0.global_write_frame
                ≡ ring.global_write_frame + frames)

    pub consume_form : consume_samples now samples frames s ≡ consumed
    unfolding consume_samples ring
    consume_form =
        rw
          (
            consume_samples,
            healthy,
            checked_add_lem s.absolute_head frames room.positions,
            checked_add_lem s.worker_written_frames frames room.written,
            written.0,
          )
          (ap (λ f. record consumed { worker_fault = f }) healthy)

    base_within : (epoch s s.active).base * s.channels ≤ length stream
    base_within = omega (
      arith,
      v.streamed,
      mul-le-mul_right {m = (epoch s s.active).base} {n = s.absolute_head} s.channels
          (omega (arith, v.head)),
    )

    consumed-Tracks : Tracks consumed (stream ++ samples)
    unfolding ring
    consumed-Tracks =
        let after : Epoch = record (epoch s s.active) {
          ring = (write_interleaved now samples s.channels (epoch s s.active).ring).0;
        } in
        let same = at_index_set s.active after s.first s.second in
        let (_, sound, moved) = written in
        record {
          streamed = omega (arith, v.streamed, whole, length-append stream samples);
          active_sound =
              subst
                (λ (e : Epoch).
                  Sound s.channels e.ring (drop (e.base * s.channels) (stream ++ samples)))
                (sym same)
                (subst (Sound s.channels after.ring)
                  (sym
                    (drop-append ((epoch s s.active).base * s.channels) stream samples base_within))
                  sound);
          head =
              ap (λ (e : Epoch). e.base + e.ring.global_write_frame) same
              ∙ omega (arith, moved, v.head);
          standby_held = v.standby_held;
          standby_sound =
              subst (λ (e : Epoch). Sound s.channels e.ring v.standby_held)
                (sym (at_index_other s.active after s.first s.second)) v.standby_sound;
        }

    -- Consuming a block of whole frames, on a worker without a fault whose epochs hold the stream
    -- and whose counters have room for the frames: the active epoch then holds the stream followed
    -- by the block, both counts grow by its frames, and nothing is dropped.
    pub consume-Tracks :
        Tracks (consume_samples now samples frames s) (stream ++ samples)
        × ((consume_samples now samples frames s).absolute_head ≡ s.absolute_head + frames)
        × ((consume_samples now samples frames s).worker_written_frames
            ≡ s.worker_written_frames + frames)
        × ((consume_samples now samples frames s).worker_dropped_frames ≡ s.worker_dropped_frames)
        × ((consume_samples now samples frames s).worker_fault ≡ none)
    consume-Tracks = (
      subst (λ t. Tracks t (stream ++ samples)) (sym consume_form) consumed-Tracks,
      ap (λ t. t.absolute_head) consume_form,
      ap (λ t. t.worker_written_frames) consume_form,
      ap (λ t. t.worker_dropped_frames) consume_form,
      ap (λ t. t.worker_fault) consume_form,
    )

-- Whatever consuming does, the standby epoch, and which one it is, stay the same.
pub record KeepsStandby (s s' : WorkerState) : Type 0 where
  pub same_active : s'.active ≡ s.active
  pub same_epoch : epoch s' (standby s.active) ≡ epoch s (standby s.active)

drop_worker-KeepsStandby :
    (frames : ℕ) (s : WorkerState) → KeepsStandby s (drop_worker_frames frames s)
unfolding drop_worker_frames
drop_worker-KeepsStandby frames s =
    each_result (KeepsStandby s) (add_cumulative_dropped_frames frames s.queue).1
      (λ _ _. record { same_active = refl; same_epoch = refl })
      (λ _ _.
        each_option (KeepsStandby s) (checked_add s.worker_dropped_frames frames)
          (λ _. record { same_active = refl; same_epoch = refl })
          (λ _ _. record { same_active = refl; same_epoch = refl }))

pub consume-KeepsStandby :
    (now : ℕ) (samples : List ℕ) (frames : ℕ) (s : WorkerState)
    → KeepsStandby s (consume_samples now samples frames s)
unfolding consume_samples
consume-KeepsStandby now samples frames s =
    each_option (λ (t : WorkerState). KeepsStandby s t) s.worker_fault
      (λ _.
        each_option (λ (t : WorkerState). KeepsStandby s t) (checked_add s.absolute_head frames)
          (λ _. drop_worker-KeepsStandby frames s)
          (λ next_absolute _.
            each_option (λ (t : WorkerState). KeepsStandby s t)
              (checked_add s.worker_written_frames frames) (λ _. drop_worker-KeepsStandby frames s)
              (λ next_written _.
                let after : Epoch = record (epoch s s.active) {
                  ring = (write_interleaved now samples s.channels (epoch s s.active).ring).0;
                } in
                let other = at_index_other s.active after s.first s.second in
                each_result (λ (t : WorkerState). KeepsStandby s t)
                  (write_interleaved now samples s.channels (epoch s s.active).ring).1
                  (λ _ _.
                    let k = drop_worker-KeepsStandby frames (set_epoch s.active after s) in
                    record { same_active = k.same_active; same_epoch = k.same_epoch ∙ other })
                  (λ _ _. record { same_active = refl; same_epoch = other }))))
      (λ _ _. record { same_active = refl; same_epoch = refl })
