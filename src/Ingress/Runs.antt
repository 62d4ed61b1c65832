-- ===== src/Ingress/Runs.antt =====
-- The producer and the worker at the same time: turns of a call of `try_push` and takes of the
-- worker in any order, and the first-in-first-out queue of blocks that they implement.
use native.Mathlib.Nat.{div-add-mod'}
use last_audio_memory_buffer.Base.{
  each_option, ap₂, ◌/◌, ◌%◌, ℕ, ◌-◌, ◌*◌, ◌<◌, ◌≤◌, ◌≡◌, ◌∙◌, sym, ap, subst, List, [], ◌∷◌, ◌++◌,
  length, arith, slice, u64_mod, Option, none, some, ltb, ltb→lt, if◌then◌else◌, each_branch,
}
use last_audio_memory_buffer.Base.Error.{ok, err, each_result}
use last_audio_memory_buffer.Ingress.{IngressQueue, next_block, take_block}
use last_audio_memory_buffer.Ingress.Push.{PushTurn, pushed, returned, push_turn, push_guards}
use last_audio_memory_buffer.Ingress.Carries.{Carries, next-empty, next-block, take-Carries}
use last_audio_memory_buffer.Ingress.Ends.{PushEnds, next_samples}
use last_audio_memory_buffer.Ingress.Turn.{push_turn-PushEnds}

-- The locals of a call of `try_push` in its loop.
pub record PushCall : Type 0 where
  pub samples : List ℕ
  pub total_frames : ℕ
  pub source_frame : ℕ
  pub enqueued : ℕ

pub record IngressState : Type 0 where
  pub queue : IngressQueue
  pub call : Option PushCall

-- What the threads do next: a producer calls, takes a turn of its loop, or the worker takes a
-- block.
pub data IngressEvent : Type 0 where
  call_push : List ℕ → ℕ → IngressEvent
  turn : IngressEvent
  consume : IngressEvent

-- What of it is seen.
pub data Observation : Type 0 where
  quiet : Observation
  enqueues : List ℕ → Observation
  dequeues : List ℕ → Observation

abbrev after_turn : PushCall → PushTurn → IngressQueue → IngressState × Observation
after_turn c (pushed q' source_frame enqueued) q = (
  record {
    queue = q';
    call = some (record c { source_frame = source_frame; enqueued = enqueued });
  },
  enqueues (
      slice c.samples (c.source_frame * q.channels) ((source_frame - c.source_frame) * q.channels)),
)
after_turn c (returned q' result) q = (record { queue = q'; call = none }, quiet)

some-injective : {a b : PushCall} → some a ≡ some b → a ≡ b
some-injective e = cc

unfoldable pub ingress_step : IngressEvent → IngressState → IngressState × Observation
unfolding push_guards push_turn next_block take_block
ingress_step (call_push samples channels) s = elim s.call [
  | some c ↦ (s, quiet)
  | none ↦ elim (push_guards samples channels s.queue) [
    | err e ↦ (s, quiet)
    | ok total_frames ↦ (
      record s {
        call = some (record {
          samples = samples;
          total_frames = total_frames;
          source_frame = 0;
          enqueued = 0;
        });
      },
      quiet,
    )
  ]
]
ingress_step turn s = elim s.call [
  | none ↦ (s, quiet)
  | some c ↦
      if ltb c.source_frame c.total_frames
      then after_turn c (push_turn c.samples c.total_frames c.source_frame c.enqueued s.queue)
          s.queue
      else (record s { call = none }, quiet)
]
ingress_step consume s = elim (next_block s.queue) [
  | none ↦ (s, quiet)
  | some next ↦ elim next [
    | err e ↦ (s, quiet)
    | ok (block, frames, sequence) ↦ (record s { queue = take_block s.queue }, dequeues block)
  ]
]

-- The abstract queue: `capacity` blocks at most, first in, first out.
pub data FifoStep (capacity : ℕ) : List (List ℕ) → Observation → List (List ℕ) → Type 0 where
  stays : {blocks : List (List ℕ)} → FifoStep capacity blocks quiet blocks
  adds :
      {blocks : List (List ℕ)} (block : List ℕ)
      → length blocks < capacity
      → FifoStep capacity blocks (enqueues block) (blocks ++ (block ∷ []))
  removes :
      {blocks : List (List ℕ)} (block : List ℕ)
      → FifoStep capacity (block ∷ blocks) (dequeues block) blocks

-- What a call in its loop has checked.
pub record IsCall (channels : ℕ) (c : PushCall) : Type 0 where
  pub inside : c.source_frame ≤ c.total_frames
  pub whole : length c.samples ≡ c.total_frames * channels
  pub small : length c.samples < u64_mod

-- The state stands for the abstract queue `blocks` of `capacity` blocks.
pub record Represents (s : IngressState) (capacity : ℕ) (blocks : List (List ℕ)) : Type 0 where
  pub carries : Carries s.queue blocks
  pub sized : length s.queue.slots ≡ capacity
  pub calls : (c : PushCall) → s.call ≡ some c → IsCall s.queue.channels c

-- The samples of a call are a slice in memory.
abbrev pub IsSized : IngressEvent → Type 0
IsSized (call_push samples channels) = length samples < u64_mod
IsSized turn = Unit
IsSized consume = Unit

-- An outcome of a step that the abstract queue allows.
pub record Refines (capacity : ℕ) (blocks : List (List ℕ)) (out : IngressState × Observation)
    : Type 0 where
  pub after : List (List ℕ)
  pub step : FifoStep capacity blocks out.1 after
  pub represents : Represents out.0 capacity after

push_guards-whole :
    (samples : List ℕ) (channels : ℕ) (q : IngressQueue) (total_frames : ℕ)
    → push_guards samples channels q ≡ ok total_frames
    → length samples ≡ total_frames * q.channels
unfolding push_guards
push_guards-whole samples channels q total_frames h =
    let whole : (channels ≡ q.channels)
        × (length samples % channels ≡ 0)
        × (length samples / channels ≡ total_frames) =
      ground arith in
    let (same, rest, parts) = whole in
    sym (div-add-mod' (length samples) channels) ∙ omega (arith, rest) ∙ ap₂ ◌*◌ parts same

module _ (s : IngressState) (capacity : ℕ) (blocks : List (List ℕ))
    (v : Represents s capacity blocks) where
  call-Refines :
      (samples : List ℕ) (channels : ℕ)
      → length samples < u64_mod
      → Refines capacity blocks (ingress_step (call_push samples channels) s)
  unfolding ingress_step
  call-Refines samples channels small =
      each_option (Refines capacity blocks) s.call
        (λ _.
          each_result (Refines capacity blocks) (push_guards samples channels s.queue)
            (λ _ _. record { after = blocks; step = stays; represents = v })
            (λ total_frames h. record {
              after = blocks;
              step = stays;
              represents = record {
                carries = v.carries;
                sized = v.sized;
                calls = λ c e. subst (IsCall s.queue.channels) (some-injective e) (record {
                  inside = omega arith;
                  whole = push_guards-whole samples channels s.queue total_frames h;
                  small = small;
                });
              };
            }))
        (λ _ _. record { after = blocks; step = stays; represents = v })

  consume-Refines : Refines capacity blocks (ingress_step consume s)
  unfolding ingress_step take_block
  consume-Refines = taken blocks v
    where
      taken :
          (bs : List (List ℕ))
          → Represents s capacity bs
          → Refines capacity bs (ingress_step consume s)
      taken [] v =
          rw (ingress_step, next-empty v.carries)
            (record { after = []; step = stays; represents = v })
      taken (b ∷ bs) v =
          let (frames, next, _) = next-block v.carries in
          rw (ingress_step, next)
            (record {
              after = bs;
              step = removes b;
              represents = record {
                carries = take-Carries v.carries;
                sized = v.sized;
                calls = v.calls;
              };
            })

  turn-Refines : Refines capacity blocks (ingress_step turn s)
  unfolding ingress_step
  turn-Refines =
      each_option (Refines capacity blocks) s.call
        (λ _. record { after = blocks; step = stays; represents = v })
        (λ c called.
          each_branch (Refines capacity blocks) (ltb c.source_frame c.total_frames)
            (λ t.
              let is_call = v.calls c called in
              let more = ltb→lt c.source_frame c.total_frames t in
              after (push_turn c.samples c.total_frames c.source_frame c.enqueued s.queue) c is_call
                (push_turn-PushEnds c.samples c.total_frames c.source_frame c.enqueued s.queue
                  blocks v.carries more is_call.whole is_call.small))
            (λ _. record {
              after = blocks;
              step = stays;
              represents = record {
                carries = v.carries;
                sized = v.sized;
                calls = λ d e. absurd cc;
              };
            }))
    where
      after :
          (ends : PushTurn) (c : PushCall)
          → IsCall s.queue.channels c
          → PushEnds c.samples c.total_frames c.source_frame c.enqueued s.queue blocks ends
          → Refines capacity blocks (after_turn c ends s.queue)
      after (returned q' result) c is_call r = record {
        after = blocks;
        step = stays;
        represents = record {
          carries = r.carries;
          sized = r.shape.slot_count ∙ v.sized;
          calls = λ d e. absurd cc;
        };
      }
      after (pushed q' source_frame enqueued) c is_call p = record {
        after =
            blocks
            ++ (next_samples c.samples c.total_frames c.source_frame c.enqueued s.queue blocks
                ∷ []);
        step =
            subst
              (λ b. FifoStep capacity blocks (enqueues b) (
                blocks
                ++ (next_samples c.samples c.total_frames c.source_frame c.enqueued s.queue blocks
                    ∷ [])))
              (ap (λ n. slice c.samples (c.source_frame * s.queue.channels) (n * s.queue.channels))
                (omega (arith, p.source_moves)))
              (adds (next_samples c.samples c.total_frames c.source_frame c.enqueued s.queue blocks)
                (omega (arith, p.space, v.sized)));
        represents = record {
          carries = p.carries;
          sized = p.shape.slot_count ∙ v.sized;
          calls = λ d e. subst (IsCall q'.channels) (some-injective e) (record {
            inside = omega (arith, p.source_moves, is_call.inside);
            whole = is_call.whole ∙ ap (λ n. c.total_frames * n) (sym p.shape.channels);
            small = is_call.small;
          });
        };
      }

-- Each step of the threads is a step of the abstract queue. Where the state stands for the queue
-- `blocks` and the samples of a new call are fewer than 2 ^ 64: a turn that publishes adds its
-- block behind the others, and only while there is room; a take of the worker removes the oldest
-- block; anything else leaves the blocks. The state then stands for the new queue.
pub ingress_step-Refines :
    (event : IngressEvent) (s : IngressState) (capacity : ℕ) (blocks : List (List ℕ))
    → Represents s capacity blocks
    → IsSized event
    → Refines capacity blocks (ingress_step event s)
ingress_step-Refines (call_push samples channels) s capacity blocks v small =
    call-Refines s capacity blocks v samples channels small
ingress_step-Refines turn s capacity blocks v _ = turn-Refines s capacity blocks v
ingress_step-Refines consume s capacity blocks v _ = consume-Refines s capacity blocks v
