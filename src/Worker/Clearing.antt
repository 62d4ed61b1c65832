-- ===== src/Worker/Clearing.antt =====
-- `Clear`: which frames the report counts as lost and as cleared.
use last_audio_memory_buffer.Base.{
  ℕ, ◌+◌, ◌-◌, ◌*◌, ◌<◌, ◌≤◌, ◌≡◌, ◌∙◌, refl, sym, ap, subst, max, List, drop, arith, u64_mod,
  checked_add_lem,
}
use last_audio_memory_buffer.Base.Error.{Result, ok}
use last_audio_memory_buffer.Ring.{SampleRing, clear}
use last_audio_memory_buffer.Ring.Copy.{oldest_frame}
use last_audio_memory_buffer.Ring.Oldest.{status_within}
use last_audio_memory_buffer.Ring.Reset.{clear-Holds}
use last_audio_memory_buffer.Worker.{WorkerState, Epoch, epoch}
use last_audio_memory_buffer.Worker.Process.{
  CaptureClearAccounting, CaptureClearReport, active_absolute_range, clear_report, clear_active,
}
use last_audio_memory_buffer.Worker.Tracking.{Sound, Tracks, at_index_set, at_index_other}

clear-Sound :
    {channels : ℕ} {r : SampleRing} {w : List ℕ} → Sound channels r w → Sound channels (clear r) w
unfolding clear
clear-Sound v = record {
  holds = (clear-Holds v.holds).0;
  unpinned = v.unpinned;
  inactive = v.inactive;
  same_channels = v.same_channels;
}

-- The absolute index of the oldest frame that the active epoch retains.
abbrev pub oldest_absolute : WorkerState → ℕ
oldest_absolute s = (epoch s s.active).base + oldest_frame (epoch s s.active).ring

-- What a clear leaves of the worker `s`, whose epochs held `stream`, and what its report says.
pub record Clears (s : WorkerState) (stream : List ℕ) (dropped : ℕ)
    (accounting : CaptureClearAccounting) (out : WorkerState × Result CaptureClearReport)
    : Type 0 where
  pub report : CaptureClearReport
  pub answer : out.1 ≡ ok report
  pub upto : report.active_absolute_end ≡ s.absolute_head
  pub from : report.active_absolute_start ≡ oldest_absolute s
  pub lost :
      report.pending_retention_lost_frames
      ≡ accounting.pending_retention_lost_frames
        + (oldest_absolute s - accounting.expected_active_start)
  pub cleared :
      report.pending_cleared_frames
      ≡ accounting.pending_cleared_frames
        + (s.absolute_head - max accounting.expected_active_start (oldest_absolute s))
  pub total_dropped : report.cumulative_dropped_frames ≡ dropped + s.worker_dropped_frames
  pub same_clear :
      (report.arena_runtime_id ≡ accounting.arena_runtime_id)
      × (report.coordinator_id ≡ accounting.coordinator_id)
      × (report.clear_id ≡ accounting.clear_id)
      × (report.expected_active_start ≡ accounting.expected_active_start)
  pub counted_once :
      report.pending_retention_lost_frames + report.pending_cleared_frames
      ≡ accounting.pending_retention_lost_frames
        + accounting.pending_cleared_frames
        + (s.absolute_head - accounting.expected_active_start)
  pub tracks : Tracks out.0 stream
  pub nothing_retained :
      oldest_frame (epoch out.0 s.active).ring ≡ (epoch out.0 s.active).ring.global_write_frame

module _ (s : WorkerState) (stream : List ℕ) (v : Tracks s stream) (dropped : ℕ)
    (accounting : CaptureClearAccounting) (counted : s.absolute_head < u64_mod)
    (lost_room : accounting.pending_retention_lost_frames + s.absolute_head < u64_mod)
    (cleared_room : accounting.pending_cleared_frames + s.absolute_head < u64_mod)
    (dropped_room : dropped + s.worker_dropped_frames < u64_mod)
    (expected : accounting.expected_active_start ≤ s.absolute_head) where
  start : ℕ
  start = (epoch s s.active).base + oldest_frame (epoch s s.active).ring

  start_within : start ≤ s.absolute_head
  unfolding start
  start_within = omega (arith, v.head, (status_within v.active_sound.holds).1)

  range_form : active_absolute_range s ≡ ok (start, s.absolute_head)
  unfolding active_absolute_range start
  range_form =
      rw
        (
          active_absolute_range,
          checked_add_lem (epoch s s.active).base (oldest_frame (epoch s s.active).ring)
              (omega (arith, counted, start_within)),
          checked_add_lem (epoch s s.active).base (epoch s s.active).ring.global_write_frame
              (omega (arith, counted, v.head)),
        )
        (ap (λ (n : ℕ). ok ((epoch s s.active).base + oldest_frame (epoch s s.active).ring, n))
          v.head)

  report_of : CaptureClearReport
  report_of = record {
    arena_runtime_id = accounting.arena_runtime_id;
    coordinator_id = accounting.coordinator_id;
    clear_id = accounting.clear_id;
    expected_active_start = accounting.expected_active_start;
    active_absolute_start = start;
    active_absolute_end = s.absolute_head;
    pending_retention_lost_frames =
        accounting.pending_retention_lost_frames + (start - accounting.expected_active_start);
    pending_cleared_frames =
        accounting.pending_cleared_frames
        + (s.absolute_head - max accounting.expected_active_start start);
    cumulative_dropped_frames = dropped + s.worker_dropped_frames;
  }

  report_form : clear_report dropped accounting s ≡ ok report_of
  unfolding clear_report report_of
  report_form =
      rw
        (
          clear_report,
          range_form,
          checked_add_lem accounting.pending_retention_lost_frames
              (start - accounting.expected_active_start) (omega (arith, lost_room, start_within)),
          checked_add_lem accounting.pending_cleared_frames
              (s.absolute_head - max accounting.expected_active_start start)
              (omega (arith, cleared_room)),
          checked_add_lem dropped s.worker_dropped_frames dropped_room,
        )
        refl

  -- A clear of a worker whose epochs hold the stream, with room in the counters, where the client
  -- expects the active epoch to start at or before the head, succeeds. Its report gives the range
  -- that the active epoch retains. The frames from the expected start up to the oldest retained one
  -- are added to those pending as lost, the retained ones from the expected start on to those
  -- cleared, so that each frame from the expected start up to the head is counted once. The active
  -- epoch then retains nothing, and the epochs hold the same stream.
  pub clear_lem : Clears s stream dropped accounting (clear_active dropped accounting s)
  unfolding clear_active report_of clear start
  clear_lem =
      let cleared : Epoch = record (epoch s s.active) { ring = clear (epoch s s.active).ring } in
      let same = at_index_set s.active cleared s.first s.second in
      rw (clear_active, report_form)
        (record {
          report = report_of;
          answer = refl;
          upto = refl;
          from = refl;
          lost = refl;
          cleared = refl;
          total_dropped = refl;
          same_clear = (refl, refl, refl, refl);
          counted_once = omega (arith, start_within, expected);
          tracks = record {
            streamed = v.streamed;
            active_sound =
                subst (λ (e : Epoch). Sound s.channels e.ring (drop (e.base * s.channels) stream))
                  (sym same) (clear-Sound v.active_sound);
            head = ap (λ (e : Epoch). e.base + e.ring.global_write_frame) same ∙ kept_head;
            standby_held = v.standby_held;
            standby_sound =
                subst (λ (e : Epoch). Sound s.channels e.ring v.standby_held)
                  (sym (at_index_other s.active cleared s.first s.second)) v.standby_sound;
          };
          nothing_retained =
              ap (λ (e : Epoch). oldest_frame e.ring) same
              ∙ (clear-Holds v.active_sound.holds).1
              ∙ sym (
                  ap (λ (e : Epoch). e.ring.global_write_frame) same
                  ∙ clear_head (epoch s s.active).ring);
        })
    where
      clear_head : (r : SampleRing) → (clear r).global_write_frame ≡ r.global_write_frame
      clear_head r = refl

      kept_head :
          (epoch s s.active).base + (clear (epoch s s.active).ring).global_write_frame
          ≡ s.absolute_head
      kept_head = v.head
