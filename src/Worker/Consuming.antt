-- ===== src/Worker/Consuming.antt =====
-- The worker on the queue: the block that a producer published is what the epochs record.
use last_audio_memory_buffer.Ring.Blocks.{mul-right_cancel}
use last_audio_memory_buffer.Base.{
  ℕ, ◌+◌, ◌*◌, ◌<◌, ◌≡◌, ◌∙◌, refl, sym, ap, subst, List, [], ◌∷◌, ◌++◌, length, drop, drop-all,
  arith, u64_mod, Bool, true, none,
}
use last_audio_memory_buffer.Base.Error.{Result, ok}
use last_audio_memory_buffer.Ring.{SampleRing}
use last_audio_memory_buffer.Ingress.{IngressQueue, take_block}
use last_audio_memory_buffer.Ingress.Carries.{Carries, next-block, take-Carries}
use last_audio_memory_buffer.Worker.{WorkerState, consume_one, new_worker}
use last_audio_memory_buffer.Worker.Tracking.{Sound, Tracks, HasRoom, consume-Tracks, consume_form}

-- A new worker on two rings that hold nothing tracks the empty stream.
pub new_worker-Tracks :
    (queue : IngressQueue) (ring_0 ring_1 : SampleRing) (channels sample_rate : ℕ)
    → Sound channels ring_0 []
    → Sound channels ring_1 []
    → ring_0.global_write_frame ≡ 0
    → Tracks (new_worker queue ring_0 ring_1 channels sample_rate) []
new_worker-Tracks queue ring_0 ring_1 channels sample_rate v v' fresh = record {
  streamed = omega arith;
  active_sound = subst (Sound channels ring_0) (sym (drop_nil (0 * channels))) v;
  head = omega (arith, fresh);
  standby_held = [];
  standby_sound = v';
}
  where
    drop_nil : (n : ℕ) → drop {A = ℕ} n [] ≡ []
    drop_nil n = drop-all n [] (omega arith)

-- What `consume_one` leaves of a worker whose epochs held `stream`, and whose queue carried `block`
-- before `blocks`.
pub record Consumes (s : WorkerState) (stream block : List ℕ) (frames : ℕ) (blocks : List (List ℕ))
    (out : WorkerState × Result Bool) : Type 0 where
  pub answer : out.1 ≡ ok true
  pub tracks : Tracks out.0 (stream ++ block)
  pub carries : Carries out.0.queue blocks
  pub counts : out.0.worker_written_frames ≡ s.worker_written_frames + frames

-- A worker without a fault that tracks a stream, on a queue of its channels that carries a block
-- and others behind it, with room in its counters for the frames of the block, fewer than 2 ^ 64
-- samples: it records the block behind the stream and takes it from the queue.
pub consume_one-Tracks :
    (now : ℕ) (s : WorkerState) (stream block : List ℕ) (frames : ℕ) (blocks : List (List ℕ))
    → Tracks s stream
    → Carries s.queue (block ∷ blocks)
    → s.worker_fault ≡ none
    → s.queue.channels ≡ s.channels
    → length block < u64_mod
    → length block ≡ frames * s.channels
    → HasRoom s frames
    → Consumes s stream block frames blocks (consume_one now s)
unfolding consume_one
consume_one-Tracks now s stream block frames blocks v c healthy same_channels small whole room =
    let (read, next, whole') = next-block c in
    let some_channels : 0 < s.channels =
      omega (arith, v.active_sound.holds.valid.some_channels, v.active_sound.same_channels) in
    let same : read ≡ frames =
      mul-right_cancel read frames s.channels some_channels
        (ap (λ n. read * n) (sym same_channels) ∙ sym whole' ∙ whole) in
    let done = consume-Tracks now block frames s stream v healthy whole small room in
    let form = consume_form now block frames s stream v healthy whole small room in
    rw (consume_one, next, same)
      (record {
        answer = refl;
        tracks = record {
          streamed = done.0.streamed;
          active_sound = done.0.active_sound;
          head = done.0.head;
          standby_held = done.0.standby_held;
          standby_sound = done.0.standby_sound;
        };
        carries =
            subst (λ q. Carries (take_block q) blocks) (sym (ap (λ t. t.queue) form))
              (take-Carries c);
        counts = done.2;
      })
