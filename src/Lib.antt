-- ===== src/Lib.antt =====
-- LAMB keeps the last minutes of audio in memory and exports them on request. A capture back end
-- hands interleaved frames to a queue of blocks, from which a worker records them into one of two
-- epochs (src/capture_arena.rs), each a ring of chunks (src/sample_ring.rs) whose memory is
-- budgeted beforehand (src/memory_plan.rs). An export freezes an epoch while the other goes on
-- recording; it reads a retained range of it and splits each channel into WAV parts
-- (src/math.rs). A daemon keeps the state of capture (src/daemon_lifecycle.rs) and retries a
-- failed one by a scheduler thread; an export leaves out silent channels (src/activity.rs).
--
-- Base is shared: tests, lists and slices over the native numbers, machine words with their
--   checked and wrapping operations, and in Base.Error the error type of src/error.rs with its
--   result monad.
-- Ring models `SampleRing`. An `f32` is its bit pattern, as samples are only moved. The chunks are
--   a list, with the fields the source keeps. Ring.New is `SampleRing::new`, where the allocator's
--   answers are arguments; Ring.Write is `write_interleaved`, one turn of its loop as `write_turn`;
--   Ring.Copy is `copy_interleaved_range_into`, `oldest_frame` and `status`; `reset`, `clear` and
--   `add_dropped_frames` stand in Ring itself; Ring.Snapshot is snapshots, from pinning their
--   segments to reading a channel and dropping them, with a chunk by its index in the ring. The
--   write loop has the number of frames as fuel, and the copy loop that of frames to copy: each
--   turn moves by one frame at least. The walk of `oldest_frame_at` has the number of chunks as
--   fuel, as in the source. `Holds` of Ring.Holds says which recording a ring holds: the last
--   blocks of it, chunk by chunk.
-- Ingress models `IngressQueue` of src/capture_arena.rs and the admission of its producers. A turn of
--   the loop of `try_push` (Ingress.Push) and a take of the worker each publish by one store at
--   their end, so that Ingress.Runs takes them in any order, as events. The loop without a worker
--   between its turns has the frames of the input and the slots as fuel: a turn publishes a frame at
--   least, or, where slots have no frames, fills a slot. `Carries` of Ingress.Carries says
--   which blocks a queue carries.
-- Worker models `WorkerState`, with the counters of the queue that it moves: recording and
--   `consume_one` in Worker itself, freeze, release and the copy from a frozen epoch in
--   Worker.Commands, clear, status and `process_command` in Worker.Process. The rings are two
--   fields, and an index names one of them, also where the source shares a ring by `Arc`.
--   `Tracks` of Worker.Tracking says what the epochs hold of the stream of recorded samples.
-- Command models `CommandSlot`, of any commands and results. Its memory cells are options, since
--   the source leaves them uninitialised; Command.Protocol says which side may call when.
-- Memory models the allocation budgets of src/memory_plan.rs, and Math all of src/math.rs that
--   counts frames: the loop over parts has the number of frames as fuel.
-- Lifecycle models `LifecycleState`, with the state types of src/control.rs and the retry delays,
--   in milliseconds. The clock's reading is an argument. Its events are the methods of the state
--   and the two places of src/daemon.rs that set fields: the status reply to a failed capture, and
--   the publication of a candidate; the recovery of a poisoned lock around them is left out.
-- Scheduler models the retry scheduler. Its calls and the turns of its worker hold one lock, so a
--   history is a list of events. The reading of the clock and the answer of the queue are arguments
--   of a turn.
-- Lane models `OperationLane` of src/control_server.rs with the loop of its worker. A step of it is
--   what one hold of the lock does; a worker that found the queue empty holds the lock until it
--   waits, and `close` does not take it. Jobs are of any type.
-- Activity models the frozen decision of an export and the window geometry of src/activity.rs;
--   Activity.Detector and Activity.Feed are the windowed detector of one channel, with its loop
--   over the samples as a recursion on them. Its `f64` is a type with the operations that it calls;
--   the proofs ask of them only that a level above a threshold is above the threshold less 6 dB.
--
-- Not modelled: the calibration capture that the worker makes aside, the client side of its
-- commands with their timeouts and recovery, the memory plan's own calculation, the rest of
-- activity analysis, export policy, the file formats and the file system, the audio back ends,
-- the control socket, configuration, and the threads themselves. They are input and output,
-- floating-point analysis or foreign libraries, or are left for later; their calls into the
-- modelled parts are arguments here.
pub mod Base
pub mod Ring
pub mod Memory
pub mod Math
pub mod Lifecycle
pub mod Scheduler
pub mod Activity
pub mod Ingress
pub mod Worker
pub mod Command
pub mod Lane
