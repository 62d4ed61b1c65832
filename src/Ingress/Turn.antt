-- ===== src/Ingress/Turn.antt =====
-- A turn of `try_push`: it publishes the next block of the input, or the call returns with the
-- queue carrying what it did.
use native.Mathlib.Nat.{mod-lt, mul-le-mul_right}
use last_audio_memory_buffer.Base.{
  ℕ, ◌+◌, ◌-◌, ◌*◌, ◌%◌, ◌<◌, ◌≤◌, ◌≡◌, ◌≢◌, refl, sym, ap, subst, subst₂, min, List, length, none,
  some, arith, checked_add, checked_mul_lem, checked_sub, slice?_lem, splice?_lem, slice-length,
  u64_mod, leb, each_option, each_branch, get_elem?-IsSome, checked_add-eq_some, leb→le,
  checked_sub-eq_some, leb_false→lt, length-set,
}
use last_audio_memory_buffer.Base.Error.{each_result, Result, ok, err}
use last_audio_memory_buffer.Ingress.{
  IngressQueue, CapturePushOutcome, add_enqueued_frames, add_ingress_dropped,
}
use last_audio_memory_buffer.Ingress.Push.{PushTurn, returned, fill_slot, drop_rest, push_turn}
use last_audio_memory_buffer.Ingress.Carries.{Carries, counted-Carries}
use last_audio_memory_buffer.Ingress.Filling.{filled_slot, filled-Carries, room_in}
use last_audio_memory_buffer.Ingress.Ends.{
  HasRoom, next_frames, next_samples, Returned, PushEnds, unchanged-Returned, ok-injective,
  enqueued_refused, enqueued_form, dropped_form, dropped_count, dropped_accepted,
}

module _ (samples : List ℕ) (total_frames source_frame enqueued : ℕ) (q : IngressQueue)
    (blocks : List (List ℕ)) (v : Carries q blocks) where
  dropped-Returned :
      (result : Result CapturePushOutcome)
      → ((out : CapturePushOutcome)
          → result ≡ ok out
          → (length blocks ≡ length q.slots)
            × (out.enqueued ≡ enqueued)
            × (out.dropped ≡ total_frames - source_frame)
            × ((add_ingress_dropped (total_frames - source_frame) q).0.dropped_frames
                ≡ q.dropped_frames + (total_frames - source_frame)))
      → (HasRoom q (total_frames - source_frame)
          → result
            ≡ ok (record {
              enqueued = enqueued;
              dropped = total_frames - source_frame;
              published =
                  (add_ingress_dropped (total_frames - source_frame) q).0.published_sequence;
            }))
      → Returned samples total_frames source_frame enqueued q blocks
          (add_ingress_dropped (total_frames - source_frame) q).0
          result
  dropped-Returned result succeeds answers =
      let form = dropped_form (total_frames - source_frame) q in
      record {
        carries = subst (λ t. Carries t blocks) (sym form) (counted-Carries q blocks _ _ _ _ v);
        shape = record {
          channels = ap (λ t. t.channels) form;
          slot_frames = ap (λ t. t.slot_frames) form;
          slot_count = ap (λ t. length t.slots) form;
          consumed = ap (λ t. t.consumed_sequence) form;
        };
        same_enqueued = ap (λ t. t.enqueued_frames) form;
        succeeds = succeeds;
        answers = answers;
      }

  drop_rest-PushEnds :
      length q.slots ≤ length blocks
      → PushEnds samples total_frames source_frame enqueued q blocks
          (drop_rest (total_frames - source_frame) enqueued q)
  unfolding drop_rest
  drop_rest-PushEnds full =
      each_result (PushEnds samples total_frames source_frame enqueued q blocks)
        (add_ingress_dropped (total_frames - source_frame) q).1
        (λ e h.
          dropped-Returned (err e) (λ out h. absurd cc)
            (λ room.
              let fine =
                dropped_accepted (total_frames - source_frame) q room.drops room.cumulates
                  room.not_exhausted in
              absurd cc))
        (λ _ h.
          let count = dropped_count (total_frames - source_frame) q h in
          dropped-Returned _
            (λ out e.
              let same = ok-injective e in
              (
                omega (arith, full, v.room),
                sym (ap (λ o. o.enqueued) same),
                sym (ap (λ o. o.dropped) same),
                count,
              ))
            (λ _.
              ap
                (λ n. ok (record {
                  enqueued = enqueued;
                  dropped = total_frames - source_frame;
                  published = n;
                }))
                (sym
                  (ap (λ t. t.published_sequence) (dropped_form (total_frames - source_frame) q)))))

  module _ (spare : length blocks < length q.slots) (more : source_frame < total_frames)
      (whole : length samples ≡ total_frames * q.channels) (small : length samples < u64_mod)
      (next : q.published_sequence + 1 < u64_mod) where
    in_input :
        source_frame * q.channels
          + next_frames samples total_frames source_frame enqueued q blocks * q.channels
        ≤ length samples
    in_input = omega (
      arith,
      whole,
      mul-le-mul_right {m = source_frame + min (total_frames - source_frame) q.slot_frames}
          {n = total_frames} q.channels (omega (arith, more)),
    )

    length_next :
        length (next_samples samples total_frames source_frame enqueued q blocks)
        ≡ next_frames samples total_frames source_frame enqueued q blocks * q.channels
    length_next = slice-length samples (source_frame * q.channels) _ in_input

    fill_slot-PushEnds :
        (n : ℕ)
        → n ≡ q.enqueued_frames + next_frames samples total_frames source_frame enqueued q blocks
        → PushEnds samples total_frames source_frame enqueued q blocks (
            fill_slot samples source_frame enqueued
              (next_frames samples total_frames source_frame enqueued q blocks)
              (q.published_sequence + 1)
              (record q { enqueued_frames = n }))
    unfolding fill_slot
    fill_slot-PushEnds n count =
        let frames = next_frames samples total_frames source_frame enqueued q blocks in
        let source = next_samples samples total_frames source_frame enqueued q blocks in
        let counted : IngressQueue = record q { enqueued_frames = n } in
        let held =
          counted-Carries q blocks n q.dropped_frames q.cumulative_dropped_frames
            q.drop_counter_exhausted v in
        let (slot, found) =
          get_elem?-IsSome q.slots (q.published_sequence % length q.slots)
            (mod-lt q.published_sequence v.some_slots) in
        let room = room_in held spare frames source next (omega arith) length_next slot found in
        rw
          (
            fill_slot,
            checked_mul_lem source_frame q.channels (omega (arith, in_input, small)),
            checked_mul_lem frames q.channels (omega (arith, in_input, small)),
            slice?_lem samples (source_frame * q.channels) (frames * q.channels) in_input,
            found,
            splice?_lem slot.samples 0 source room,
          )
          (record {
            carries =
                filled-Carries held spare frames source next (omega arith) length_next slot found;
            shape = record {
              channels = refl;
              slot_frames = refl;
              slot_count =
                  length-set q.slots (q.published_sequence % length q.slots)
                    (filled_slot frames slot.samples source);
              consumed = refl;
            };
            source_moves = refl;
            enqueued_moves = refl;
            counts = count;
            same_dropped = refl;
            same_cumulative = refl;
            same_exhausted = refl;
            space = spare;
          })

  counted_turn-PushEnds :
      (spare : length blocks < length q.slots) (more : source_frame < total_frames)
      (whole : length samples ≡ total_frames * q.channels) (small : length samples < u64_mod)
      (next_published : ℕ)
      → checked_add q.published_sequence 1 ≡ some next_published
      → PushEnds samples total_frames source_frame enqueued q blocks (
          let frames = next_frames samples total_frames source_frame enqueued q blocks in
          let counted = add_enqueued_frames frames q in
          elim counted.1 as (λ _. PushTurn) [
            | err e ↦ returned counted.0 (err e)
            | ok _ ↦ fill_slot samples source_frame enqueued frames next_published counted.0
          ])
  counted_turn-PushEnds spare more whole small next_published e =
      let frames = next_frames samples total_frames source_frame enqueued q blocks in
      let (same, room) = checked_add-eq_some q.published_sequence 1 e in
      each_result (PushEnds samples total_frames source_frame enqueued q blocks)
        (add_enqueued_frames frames q).1
        (λ error h.
          subst (λ t. Returned samples total_frames source_frame enqueued q blocks t (err error))
            (sym (enqueued_refused frames q error h).0)
            (unchanged-Returned samples total_frames source_frame enqueued q blocks _
              (λ r. absurd (omega (arith, r.enqueues, (enqueued_refused frames q error h).1))) v))
        (λ _ h.
          subst₂
            (λ n t.
              PushEnds samples total_frames source_frame enqueued q blocks
                (fill_slot samples source_frame enqueued frames n t))
            (sym same) (sym (enqueued_form frames q h))
            (fill_slot-PushEnds spare more whole small room _ refl))

  never_behind : checked_sub q.published_sequence q.consumed_sequence ≢ none
  unfolding checked_sub
  never_behind e = let s = v.span in ground arith

  has_next :
      source_frame < total_frames
      → checked_add q.published_sequence 1 ≡ none
      → ¬ HasRoom q (total_frames - source_frame)
  unfolding checked_add
  has_next more e r = let s = r.publishes in ground arith

  -- A turn of the loop.
  pub push_turn-PushEnds :
      source_frame < total_frames
      → length samples ≡ total_frames * q.channels
      → length samples < u64_mod
      → PushEnds samples total_frames source_frame enqueued q blocks
          (push_turn samples total_frames source_frame enqueued q)
  unfolding push_turn
  push_turn-PushEnds more whole small =
      each_option (PushEnds samples total_frames source_frame enqueued q blocks)
        (checked_sub q.published_sequence q.consumed_sequence)
        (λ n.
          unchanged-Returned samples total_frames source_frame enqueued q blocks _
            (λ _. absurd (never_behind n)) v)
        (λ queued e.
          let (count, _) = checked_sub-eq_some q.published_sequence q.consumed_sequence e in
          each_branch (PushEnds samples total_frames source_frame enqueued q blocks)
            (leb (length q.slots) queued)
            (λ full.
              drop_rest-PushEnds
                (omega (arith, leb→le (length q.slots) queued full, count, v.span)))
            (λ spare.
              each_option (PushEnds samples total_frames source_frame enqueued q blocks)
                (checked_add q.published_sequence 1)
                (λ n.
                  unchanged-Returned samples total_frames source_frame enqueued q blocks _
                    (λ r. absurd (has_next more n r)) v)
                (λ next_published.
                  counted_turn-PushEnds
                    (omega (arith, leb_false→lt (length q.slots) queued spare, count, v.span)) more
                    whole small next_published)))
