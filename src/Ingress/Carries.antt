-- ===== src/Ingress/Carries.antt =====
-- Which blocks a queue carries, oldest first, and that turns and takes are those of a FIFO.
use native.Mathlib.Nat.{mul-le-mul_right}
use last_audio_memory_buffer.Base.{
  ℕ, suc, ◌+◌, ◌*◌, ◌%◌, ◌<◌, ◌≤◌, ◌≡◌, ◌∙◌, refl, sym, ap, List, [], ◌∷◌, length, get_elem?, take,
  none, some, Bool, arith, slice, slice?_lem, add_u64, u64_mod, u32_max, lt→leb_false,
}
use last_audio_memory_buffer.Base.Error.{ok}
use last_audio_memory_buffer.Ingress.{IngressSlot, IngressQueue, next_block, take_block}

-- A slot holds a block of whole frames.
pub record HoldsBlock (q : IngressQueue) (slot : IngressSlot) (block : List ℕ) : Type 0 where
  pub whole : length block ≡ slot.frames * q.channels
  pub fits : slot.frames ≤ q.slot_frames
  pub copied : take (length block) slot.samples ≡ block

-- The queue carries `blocks`, the oldest in the slot of its consumed sequence number.
pub record Carries (q : IngressQueue) (blocks : List (List ℕ)) : Type 0 where
  pub some_slots : 0 < length q.slots
  pub some_channels : 0 < q.channels
  pub some_frames : 0 < q.slot_frames
  pub frames_u32 : q.slot_frames ≤ u32_max
  pub span : q.published_sequence ≡ q.consumed_sequence + length blocks
  pub room : length blocks ≤ length q.slots
  pub counted : q.published_sequence < u64_mod
  pub sizes :
      (i : ℕ) (slot : IngressSlot)
      → get_elem? q.slots i ≡ some slot
      → length slot.samples ≡ q.slot_frames * q.channels
  pub block :
      (k : ℕ) (b : List ℕ)
      → get_elem? blocks k ≡ some b
      → (slot : IngressSlot) × (get_elem? q.slots ((q.consumed_sequence + k) % length q.slots)
          ≡ some slot)
        × HoldsBlock q slot b

module _ {q : IngressQueue} where
  -- An empty queue gives nothing.
  pub next-empty : Carries q [] → next_block q ≡ none
  unfolding next_block
  next-empty v = let s = v.span in ground arith

  -- The block at the head is the oldest one, and taking it leaves the rest.
  pub next-block :
      {b : List ℕ} {bs : List (List ℕ)}
      → Carries q (b ∷ bs)
      → (frames : ℕ) × (next_block q ≡ some (ok (b, frames, q.consumed_sequence)))
        × (length b ≡ frames * q.channels)
  unfolding next_block slice
  next-block {b} {bs} v =
      let (slot, found, holds) = v.block 0 b refl in
      let place : (q.consumed_sequence + 0) % length q.slots
          ≡ q.consumed_sequence % length q.slots =
        ap (λ t. t % length q.slots) (omega arith) in
      let at : get_elem? q.slots (q.consumed_sequence % length q.slots) ≡ some slot =
        ap (get_elem? q.slots) (sym place) ∙ found in
      let inside = v.sizes (q.consumed_sequence % length q.slots) slot at in
      let read =
        slice?_lem slot.samples 0 (slot.frames * q.channels)
          (omega (arith, inside, mul-le-mul_right q.channels holds.fits)) in
      let same : slice slot.samples 0 (slot.frames * q.channels) ≡ b =
        ap (λ n. take n slot.samples) (sym holds.whole) ∙ holds.copied in
      (
        slot.frames,
        rw (
          next_block,
          lt→leb_false q.published_sequence q.consumed_sequence (omega (arith, v.span)),
          at,
          read,
          same,
        ),
        holds.whole,
      )

  pub take-Carries :
      {b : List ℕ} {bs : List (List ℕ)} → Carries q (b ∷ bs) → Carries (take_block q) bs
  unfolding take_block add_u64
  take-Carries {b} {bs} v =
      let head : (q.consumed_sequence + 1) % u64_mod ≡ q.consumed_sequence + 1 =
        omega (arith, v.span, v.counted) in
      record {
        some_slots = v.some_slots;
        some_channels = v.some_channels;
        some_frames = v.some_frames;
        frames_u32 = v.frames_u32;
        span = omega (arith, v.span, head);
        room = omega (arith, v.room);
        counted = v.counted;
        sizes = v.sizes;
        block = λ k c e.
            let (slot, found, holds) = v.block (suc k) c e in
            (
              slot,
              ap (λ t. get_elem? q.slots (t % length q.slots)) (omega (arith, head)) ∙ found,
              record { whole = holds.whole; fits = holds.fits; copied = holds.copied },
            );
      }

-- The counters are no part of what the queue carries.
pub counted-Carries :
    (q : IngressQueue) (blocks : List (List ℕ)) (enqueued dropped cumulative : ℕ) (exhausted : Bool)
    → Carries q blocks
    → Carries
        (record q {
          enqueued_frames = enqueued;
          dropped_frames = dropped;
          cumulative_dropped_frames = cumulative;
          drop_counter_exhausted = exhausted;
        })
        blocks
counted-Carries q blocks enqueued dropped cumulative exhausted v = record {
  some_slots = v.some_slots;
  some_channels = v.some_channels;
  some_frames = v.some_frames;
  frames_u32 = v.frames_u32;
  span = v.span;
  room = v.room;
  counted = v.counted;
  sizes = v.sizes;
  block = λ k b e.
      let (slot, found, holds) = v.block k b e in
      (slot, found, record { whole = holds.whole; fits = holds.fits; copied = holds.copied });
}
