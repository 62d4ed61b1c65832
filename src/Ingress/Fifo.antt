-- ===== src/Ingress/Fifo.antt =====
-- Histories of the queue that `IngressQueue::new` makes: the worker gets the blocks in the order in
-- which the producer published them, however their turns fall.
use mathlib.Core.List.{append_assoc, append-nil}
use last_audio_memory_buffer.Base.{
  ℕ, zero, suc, ◌+◌, ◌*◌, ◌<◌, ◌≤◌, ◌≡◌, ◌∙◌, refl, sym, ap, subst, List, [], ◌∷◌, ◌++◌, length,
  get_elem?, arith, u32_max, none, some, Bool, checked_mul,
}
use last_audio_memory_buffer.Base.Error.{ok, ok_or, require, validation, LambError, >>=-eq-ok}
use last_audio_memory_buffer.Ring.New.{new_zeroed}
use last_audio_memory_buffer.Ring.Fresh.{new_zeroed-eq_ok}
use last_audio_memory_buffer.Ingress.{IngressSlot, IngressQueue, new_slots, new_queue}
use last_audio_memory_buffer.Ingress.Ends.{ok-injective}
use last_audio_memory_buffer.Ingress.Runs.{
  IngressState, IngressEvent, Observation, quiet, enqueues, dequeues, ingress_step, IsSized,
  FifoStep, stays, adds, removes, Represents, ingress_step-Refines,
}

-- The slots that `new` makes.
pub record MadeSlots (samples n : ℕ) (slots : List IngressSlot) : Type 0 where
  pub count : length slots ≡ n
  pub sizes : (i : ℕ) (s : IngressSlot) → get_elem? slots i ≡ some s → length s.samples ≡ samples

new_slots-MadeSlots :
    (grants : ℕ → Bool) (samples n i : ℕ) (slots : List IngressSlot)
    → new_slots grants samples n i ≡ ok slots
    → MadeSlots samples n slots
unfolding new_slots
new_slots-MadeSlots grants samples zero i slots h =
    let e : [] ≡ slots = cc in
    subst (MadeSlots samples 0) e (record { count = refl; sizes = λ j s f. absurd cc })
new_slots-MadeSlots grants samples (suc n) i slots h =
    let (buf, made, h') = >>=-eq-ok (new_zeroed (grants i) samples) _ h in
    let (rest, more, h'') = >>=-eq-ok (new_slots grants samples n (i + 1)) _ h' in
    let m = new_slots-MadeSlots grants samples n (i + 1) rest more in
    let e : record { frames = 0; samples = buf } ∷ rest ≡ slots = cc in
    subst (MadeSlots samples (suc n)) e (record {
      count = ap suc m.count;
      sizes = at buf rest (new_zeroed-eq_ok (grants i) samples made) m.sizes;
    })
  where
    at :
        (buf : List ℕ) (rest : List IngressSlot)
        → length buf ≡ samples
        → ((j : ℕ) (s : IngressSlot) → get_elem? rest j ≡ some s → length s.samples ≡ samples)
        → (j : ℕ) (s : IngressSlot)
        → get_elem? (record { frames = 0; samples = buf } ∷ rest) j ≡ some s
        → length s.samples ≡ samples
    at buf rest e others zero s f =
        let same : record { frames = 0; samples = buf } ≡ s = cc in
        ap (λ (t : IngressSlot). length t.samples) (sym same) ∙ e
    at buf rest e others (suc j) s f = others j s f

ok_product : (a b n : ℕ) (e : LambError) → ok_or (checked_mul a b) e ≡ ok n → n ≡ a * b
unfolding checked_mul
ok_product a b n e h = ground arith

-- A new queue carries nothing.
pub new_queue-Represents :
    (grants_index : Bool) (grants : ℕ → Bool) (slot_count slot_frames channels : ℕ)
    (q : IngressQueue)
    → 0 < slot_count
    → 0 < slot_frames
    → slot_frames ≤ u32_max
    → 0 < channels
    → new_queue grants_index grants slot_count slot_frames channels ≡ ok q
    → Represents (record { queue = q; call = none }) slot_count []
unfolding new_queue
new_queue-Represents grants_index grants slot_count slot_frames channels q some_slots some_frames
      frames_u32 some_channels h =
    let (samples, product, h1) =
      >>=-eq-ok
        (ok_or (checked_mul slot_frames channels)
          (validation "capture queue slot sample count overflow"))
        _ h in
    let (_, _, h2) =
      >>=-eq-ok (require grants_index (validation "unable to allocate exact array")) _ h1 in
    let (slots, made, h3) = >>=-eq-ok (new_slots grants samples slot_count 0) _ h2 in
    let m = new_slots-MadeSlots grants samples slot_count 0 slots made in
    let size : samples ≡ slot_frames * channels =
      ok_product slot_frames channels samples _ product in
    let e : _ ≡ q = ok-injective h3 in
    subst (λ t. Represents (record { queue = t; call = none }) slot_count []) e
      (record {
        carries = record {
          some_slots = omega (arith, m.count);
          some_channels = some_channels;
          some_frames = some_frames;
          frames_u32 = frames_u32;
          span = refl;
          room = omega arith;
          counted = omega arith;
          sizes = λ i s f. m.sizes i s f ∙ size;
          block = λ k b f. absurd cc;
        };
        sized = m.count;
        calls = λ c f. absurd cc;
      })

-- A history: the state at its end, and what was seen.
unfoldable pub ingress_run : List IngressEvent → IngressState → IngressState × List Observation
unfolding ingress_step
ingress_run [] s = (s, [])
ingress_run (event ∷ events) s =
    let next = ingress_step event s in
    let rest = ingress_run events next.0 in (rest.0, next.1 ∷ rest.1)

unfoldable pub enqueued_blocks : List Observation → List (List ℕ)
enqueued_blocks [] = []
enqueued_blocks (quiet ∷ seen) = enqueued_blocks seen
enqueued_blocks (enqueues block ∷ seen) = block ∷ enqueued_blocks seen
enqueued_blocks (dequeues block ∷ seen) = enqueued_blocks seen

unfoldable pub dequeued_blocks : List Observation → List (List ℕ)
dequeued_blocks [] = []
dequeued_blocks (quiet ∷ seen) = dequeued_blocks seen
dequeued_blocks (enqueues block ∷ seen) = dequeued_blocks seen
dequeued_blocks (dequeues block ∷ seen) = block ∷ dequeued_blocks seen

abbrev pub AllSized : List IngressEvent → Type 0
AllSized [] = Unit
AllSized (event ∷ events) = IsSized event × AllSized events

-- The blocks left at the end of a history, behind those that were taken, are the old ones and the
-- new.
pub record Queues (capacity : ℕ) (blocks : List (List ℕ)) (out : IngressState × List Observation)
    : Type 0 where
  pub after : List (List ℕ)
  pub in_order : dequeued_blocks out.1 ++ after ≡ blocks ++ enqueued_blocks out.1
  pub represents : Represents out.0 capacity after

step-Queues :
    (capacity : ℕ) (blocks blocks' : List (List ℕ)) (o : Observation) (s : IngressState)
    (seen : List Observation)
    → FifoStep capacity blocks o blocks'
    → Queues capacity blocks' (s, seen)
    → Queues capacity blocks (s, o ∷ seen)
unfolding enqueued_blocks dequeued_blocks
step-Queues capacity blocks blocks' o s seen stays q = record {
  after = q.after;
  in_order = q.in_order;
  represents = q.represents;
}
step-Queues capacity blocks blocks' o s seen (adds block _) q = record {
  after = q.after;
  in_order = q.in_order ∙ append_assoc blocks (block ∷ []) (enqueued_blocks seen);
  represents = q.represents;
}
step-Queues capacity blocks blocks' o s seen (removes block) q = record {
  after = q.after;
  in_order = ap (λ l. block ∷ l) q.in_order;
  represents = q.represents;
}

run-Queues :
    (events : List IngressEvent) (s : IngressState) (capacity : ℕ) (blocks : List (List ℕ))
    → Represents s capacity blocks
    → AllSized events
    → Queues capacity blocks (ingress_run events s)
unfolding ingress_run enqueued_blocks dequeued_blocks
run-Queues [] s capacity blocks v _ = record {
  after = blocks;
  in_order = sym (append-nil blocks);
  represents = v;
}
run-Queues (event ∷ events) s capacity blocks v sized =
    let r = ingress_step-Refines event s capacity blocks v sized.0 in
    let rest = run-Queues events (ingress_step event s).0 capacity r.after r.represents sized.1 in
    step-Queues capacity blocks r.after (ingress_step event s).1 _ _ r.step rest

-- Any history of a queue that `IngressQueue::new` made, with at least one slot of at least one
-- frame, a `u32`, and one channel, where the samples of each call are fewer than 2 ^ 64: the
-- blocks that the worker took, and then those that the queue still carries, are the blocks that
-- producers published, in the order of their publication, and at most `slot_count` are left.
pub ingress_run_lem :
    (grants_index : Bool) (grants : ℕ → Bool) (slot_count slot_frames channels : ℕ)
    (q : IngressQueue) (events : List IngressEvent)
    → 0 < slot_count
    → 0 < slot_frames
    → slot_frames ≤ u32_max
    → 0 < channels
    → new_queue grants_index grants slot_count slot_frames channels ≡ ok q
    → AllSized events
    → Queues slot_count [] (ingress_run events (record { queue = q; call = none }))
ingress_run_lem grants_index grants slot_count slot_frames channels q events some_slots some_frames
      frames_u32 some_channels made sized =
    run-Queues events (record { queue = q; call = none }) slot_count []
      (new_queue-Represents grants_index grants slot_count slot_frames channels q some_slots
        some_frames frames_u32 some_channels made)
      sized
