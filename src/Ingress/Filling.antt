-- ===== src/Ingress/Filling.antt =====
-- A turn of the producer adds its block at the end of what the queue carries.
use native.Mathlib.Decide.{ℕ_discrete}
use native.Mathlib.Nat.{mul-le-mul_right}
use last_audio_memory_buffer.Base.{
  ℕ, ◌+◌, ◌*◌, ◌%◌, ◌<◌, ◌≤◌, ◌≡◌, ◌≢◌, ◌∙◌, sym, ap, subst, List, [], ◌∷◌, ◌++◌, length,
  length-append, drop, get_elem?, get_elem?-set_self, get_elem?-set_ne, set, some, arith, u64_mod,
  u32_mod, get_elem?-snoc, get_elem?-lt, length-set, length-splice, take-splice, inl, inr,
}
use last_audio_memory_buffer.Ring.Blocks.{block_unique}
use last_audio_memory_buffer.Ingress.{IngressSlot, IngressQueue}
use last_audio_memory_buffer.Ingress.Carries.{HoldsBlock, Carries}

abbrev pub filled_slot : ℕ → List ℕ → List ℕ → IngressSlot
filled_slot frames samples source = record {
  frames = frames % u32_mod;
  samples = source ++ drop (0 + length source) samples;
}

-- The queue after `frames` frames of `source` are published in the slot at the head.
abbrev pub filled_queue : IngressQueue → ℕ → List ℕ → List ℕ → IngressQueue
filled_queue q frames samples source = record q {
  slots = set q.slots (q.published_sequence % length q.slots) (filled_slot frames samples source);
  published_sequence = q.published_sequence + 1;
}

module _ {q : IngressQueue} {blocks : List (List ℕ)} (v : Carries q blocks)
    (spare : length blocks < length q.slots) (frames : ℕ) (source : List ℕ)
    (next : q.published_sequence + 1 < u64_mod) (fits : frames ≤ q.slot_frames)
    (whole : length source ≡ frames * q.channels) (slot : IngressSlot)
    (found : get_elem? q.slots (q.published_sequence % length q.slots) ≡ some slot) where
  pub room_in : 0 + length source ≤ length slot.samples
  room_in = omega (
    arith,
    whole,
    v.sizes (q.published_sequence % length q.slots) slot found,
    mul-le-mul_right q.channels fits,
  )

  same_length : length (filled_queue q frames slot.samples source).slots ≡ length q.slots
  same_length =
      length-set q.slots (q.published_sequence % length q.slots)
        (filled_slot frames slot.samples source)

  filled_sizes :
      (i : ℕ) (s : IngressSlot)
      → get_elem? (filled_queue q frames slot.samples source).slots i ≡ some s
      → length s.samples ≡ q.slot_frames * q.channels
  filled_sizes i s e = elim (ℕ_discrete (q.published_sequence % length q.slots) i) [
    | yes same ↦
        let new : some (filled_slot frames slot.samples source) ≡ some s =
          sym (
            get_elem?-set_self q.slots (q.published_sequence % length q.slots)
              (filled_slot frames slot.samples source)
              (get_elem?-lt q.slots (q.published_sequence % length q.slots) found))
          ∙ ap (get_elem? (filled_queue q frames slot.samples source).slots) same
          ∙ e in
        let slots : filled_slot frames slot.samples source ≡ s = cc in
        ap (λ (x : IngressSlot). length x.samples) (sym slots)
        ∙ length-splice slot.samples 0 source room_in
        ∙ v.sizes (q.published_sequence % length q.slots) slot found
    | no ne ↦ v.sizes i s (
        sym (
          get_elem?-set_ne q.slots (q.published_sequence % length q.slots) i
            (filled_slot frames slot.samples source) ne)
        ∙ e)
  ]

  -- An older block stays where it is: its slot is another one.
  old_block :
      (k : ℕ) (b : List ℕ)
      → k < length blocks
      → get_elem? blocks k ≡ some b
      → (s : IngressSlot) × (get_elem?
            (filled_queue q frames slot.samples source).slots
            ((q.consumed_sequence + k) % length q.slots)
          ≡ some s)
        × HoldsBlock (filled_queue q frames slot.samples source) s b
  old_block k b lt e =
      let (s, at, holds) = v.block k b e in
      (
        s,
        get_elem?-set_ne q.slots (q.published_sequence % length q.slots)
              ((q.consumed_sequence + k) % length q.slots) _ other
            ∙ at,
        record { whole = holds.whole; fits = holds.fits; copied = holds.copied },
      )
    where
      other : q.published_sequence % length q.slots ≢ (q.consumed_sequence + k) % length q.slots
      other same = absurd (
          omega (
            arith,
            lt,
            v.span,
            spare,
            block_unique (length q.slots) q.published_sequence (q.consumed_sequence + k) same
                (omega (arith, v.span, lt, v.room))
                (omega (arith, v.span, lt, v.room, v.some_slots, spare)),
          ))

  new_holds :
      HoldsBlock
        (filled_queue q frames slot.samples source)
        (filled_slot frames slot.samples source)
        source
  new_holds = record {
    whole = whole ∙ ap (λ t. t * q.channels) (omega (arith, fits, v.frames_u32));
    fits = omega (arith, fits, v.frames_u32);
    copied = take-splice slot.samples 0 (length source) source room_in (omega arith);
  }

  pub filled-Carries : Carries (filled_queue q frames slot.samples source) (blocks ++ (source ∷ []))
  filled-Carries = record {
    some_slots = omega (arith, v.some_slots, same_length);
    some_channels = v.some_channels;
    some_frames = v.some_frames;
    frames_u32 = v.frames_u32;
    span = omega (arith, v.span, length-append blocks (source ∷ []));
    room = omega (arith, spare, length-append blocks (source ∷ []), same_length);
    counted = next;
    sizes = filled_sizes;
    block = λ k b e.
        let place : (q.consumed_sequence + k)
              % length (filled_queue q frames slot.samples source).slots
            ≡ (q.consumed_sequence + k) % length q.slots =
          ap (λ n. (q.consumed_sequence + k) % n) same_length in
        subst
          (λ i.
            (s : IngressSlot) × (get_elem? (filled_queue q frames slot.samples source).slots i
              ≡ some s)
            × HoldsBlock (filled_queue q frames slot.samples source) s b)
          (sym place)
          (elim (get_elem?-snoc blocks source k e) [
            | inl (lt, old) ↦ old_block k b lt old
            | inr (last, new) ↦ (
              filled_slot frames slot.samples source,
              ap
                    (λ i.
                      get_elem? (filled_queue q frames slot.samples source).slots
                        (i % length q.slots))
                    (omega (arith, last, v.span))
                  ∙ get_elem?-set_self q.slots (q.published_sequence % length q.slots)
                      (filled_slot frames slot.samples source)
                      (get_elem?-lt q.slots (q.published_sequence % length q.slots) found),
              subst
                  (λ c.
                    HoldsBlock (filled_queue q frames slot.samples source)
                      (filled_slot frames slot.samples source) c)
                  new new_holds,
            )
          ]);
  }
