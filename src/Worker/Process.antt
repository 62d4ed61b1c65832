-- ===== src/Worker/Process.antt =====
-- `process_command`: a command of the slot, carried out by the worker.
use last_audio_memory_buffer.Base.{
  ℕ, ◌-◌, max, Bool, true, false, not, ◌&&◌, if◌then◌else◌, Option, none, some, checked_add,
}
use last_audio_memory_buffer.Base.Error.{
  Result, ok, err, capture_invariant, control_invariant, ok_or, ◌>>=◌,
}
use last_audio_memory_buffer.Ring.{clear}
use last_audio_memory_buffer.Ring.Copy.{oldest_frame, status}
use last_audio_memory_buffer.Ingress.{exhausted}
use last_audio_memory_buffer.Worker.{EpochIndex, WorkerState, epoch, set_epoch, latest_overrun}
use last_audio_memory_buffer.Worker.Commands.{FrozenDescriptor, freeze, release}

pub record CaptureClearAccounting : Type 0 where
  pub arena_runtime_id : ℕ
  pub coordinator_id : ℕ
  pub clear_id : ℕ
  pub expected_active_start : ℕ
  pub pending_retention_lost_frames : ℕ
  pub pending_cleared_frames : ℕ

pub record CaptureClearReport : Type 0 where
  pub arena_runtime_id : ℕ
  pub coordinator_id : ℕ
  pub clear_id : ℕ
  pub expected_active_start : ℕ
  pub active_absolute_start : ℕ
  pub active_absolute_end : ℕ
  pub pending_retention_lost_frames : ℕ
  pub pending_cleared_frames : ℕ
  pub cumulative_dropped_frames : ℕ

pub record CaptureArenaStatus : Type 0 where
  pub dropped_frames : ℕ
  pub retained_frames : ℕ
  pub capacity_frames : ℕ
  pub last_overrun : Option ℕ
  pub active_absolute_start : ℕ
  pub active_absolute_end : ℕ
  pub ingress_enqueued_frames : ℕ
  pub capture_dropped_frames : ℕ
  pub worker_written_frames : ℕ
  pub worker_dropped_frames : ℕ
  pub frozen_pending : Bool

-- `WorkerCommand`; the first field of each is the target sequence number.
pub data WorkerCommand : Type 0 where
  freeze_command : ℕ → Option ℕ → WorkerCommand
  release_command : ℕ → EpochIndex → ℕ → WorkerCommand
  clear_command : ℕ → ℕ → CaptureClearAccounting → WorkerCommand
  status_command : ℕ → WorkerCommand
  shutdown_command : ℕ → WorkerCommand

unfoldable pub target_sequence : WorkerCommand → ℕ
target_sequence (freeze_command target committed_start) = target
target_sequence (release_command target index generation) = target
target_sequence (clear_command target dropped accounting) = target
target_sequence (status_command target) = target
target_sequence (shutdown_command target) = target

-- `WorkerReply`
pub data WorkerReply : Type 0 where
  frozen_reply : Option FrozenDescriptor → WorkerReply
  released_reply : WorkerReply
  cleared_reply : CaptureClearReport → WorkerReply
  status_reply : CaptureArenaStatus → WorkerReply
  shutdown_reply : WorkerReply

-- `active_absolute_range`
unfoldable pub active_absolute_range : WorkerState → Result (ℕ × ℕ)
unfolding oldest_frame
active_absolute_range s = do
  start ←
      ok_or (checked_add (epoch s s.active).base (oldest_frame (epoch s s.active).ring))
        (control_invariant "absolute capture frame counter exhausted")
  end ←
      ok_or (checked_add (epoch s s.active).base (epoch s s.active).ring.global_write_frame)
        (control_invariant "absolute capture frame counter exhausted")
  ok (start, end)

-- The report of a clear.
unfoldable pub clear_report : ℕ → CaptureClearAccounting → WorkerState → Result CaptureClearReport
unfolding active_absolute_range
clear_report ingress_dropped_frames accounting s = do
  (start, end) ← active_absolute_range s
  pending_retention_lost_frames ←
      ok_or
        (checked_add accounting.pending_retention_lost_frames
          (start - accounting.expected_active_start))
        (control_invariant "pending retention loss counter exhausted")
  pending_cleared_frames ←
      ok_or
        (checked_add accounting.pending_cleared_frames
          (end - max accounting.expected_active_start start))
        (control_invariant "pending cleared frame counter exhausted")
  cumulative_dropped_frames ←
      ok_or (checked_add ingress_dropped_frames s.worker_dropped_frames)
        (control_invariant "cumulative capture dropped frame counter exhausted")
  ok (record {
    arena_runtime_id = accounting.arena_runtime_id;
    coordinator_id = accounting.coordinator_id;
    clear_id = accounting.clear_id;
    expected_active_start = accounting.expected_active_start;
    active_absolute_start = start;
    active_absolute_end = end;
    pending_retention_lost_frames = pending_retention_lost_frames;
    pending_cleared_frames = pending_cleared_frames;
    cumulative_dropped_frames = cumulative_dropped_frames;
  })

-- The `Clear` branch: the active ring is cleared once the report is made.
unfoldable pub clear_active :
    ℕ → CaptureClearAccounting → WorkerState → WorkerState × Result CaptureClearReport
unfolding clear_report clear
clear_active ingress_dropped_frames accounting s =
    elim (clear_report ingress_dropped_frames accounting s) [
      | err e ↦ (s, err e)
      | ok report ↦ (
        set_epoch s.active (record (epoch s s.active) { ring = clear (epoch s s.active).ring }) s,
        ok report,
      )
    ]

-- The sum of dropped frames that `status` reports.
unfoldable pub all_dropped_frames : WorkerState → Option ℕ
all_dropped_frames s =
    elim (checked_add s.retired_dropped_frames (epoch s s.active).ring.dropped_frames) [
      | none ↦ none
      | some total ↦ elim (checked_add total s.queue.dropped_frames) [
        | none ↦ none
        | some total' ↦ checked_add total' s.worker_dropped_frames
      ]
    ]

abbrev has_frozen : WorkerState → Bool
has_frozen s = elim s.frozen [ none ↦ false | some _ ↦ true ]

-- `status`
unfoldable pub worker_status : WorkerState → Result CaptureArenaStatus
unfolding all_dropped_frames active_absolute_range status latest_overrun
worker_status s = elim s.worker_fault [
  | some fault ↦ err (capture_invariant fault)
  | none ↦ do
    dropped_frames ←
        ok_or (all_dropped_frames s)
          (control_invariant "cumulative dropped frame counter exhausted")
    (start, end) ← active_absolute_range s
    ok (record {
      dropped_frames = dropped_frames;
      retained_frames = (status (epoch s s.active).ring).retained_frames;
      capacity_frames = (status (epoch s s.active).ring).capacity_frames;
      last_overrun = latest_overrun s.retired_last_overrun (epoch s s.active).ring.last_overrun;
      active_absolute_start = start;
      active_absolute_end = end;
      ingress_enqueued_frames = s.queue.enqueued_frames;
      capture_dropped_frames = s.queue.dropped_frames;
      worker_written_frames = s.worker_written_frames;
      worker_dropped_frames = s.worker_dropped_frames;
      frozen_pending = has_frozen s;
    })
]

abbrev is_release_or_shutdown : WorkerCommand → Bool
is_release_or_shutdown (release_command target index generation) = true
is_release_or_shutdown (shutdown_command target) = true
is_release_or_shutdown _ = false

-- The result of a command, as a reply.
abbrev reply :
    {A : Type 0} → (A → WorkerReply) → WorkerState × Result A → WorkerState × Result WorkerReply
reply f out = elim out.1 [ err e ↦ (out.0, err e) | ok a ↦ (out.0, ok (f a)) ]

unfoldable pub process_command : WorkerCommand → WorkerState → WorkerState × Result WorkerReply
unfolding freeze release clear_active worker_status
process_command command s =
    if s.queue.drop_counter_exhausted && not (is_release_or_shutdown command)
    then (s, err (capture_invariant exhausted))
    else elim command [
      | freeze_command target committed_start ↦ reply frozen_reply (freeze committed_start s)
      | release_command target index generation ↦
          reply (λ _. released_reply) (release index generation s)
      | clear_command target dropped accounting ↦
          reply cleared_reply (clear_active dropped accounting s)
      | status_command target ↦ reply status_reply (s, worker_status s)
      | shutdown_command target ↦ (s, ok shutdown_reply)
    ]
