-- ===== src/Ingress/Admission.antt =====
-- Admission of producers: the bit that says whether the ingress is open, and the count below it.
use last_audio_memory_buffer.Base.{
  ℕ, ◌+◌, ◌<◌, ◌≤◌, ◌≡◌, ◌≢◌, ◌∙◌, inl, inr, sym, ap, subst, Bool, false, not, arith, u64_mod,
  add_u64, checked_add, Option-cases, ltb,
}
use last_audio_memory_buffer.Base.Error.{ok, err, LambError, capture_invariant}
use last_audio_memory_buffer.Ingress.{
  IngressQueue, producer_open, acquire_admission, drop_admission, close_producer_admission,
  admitted_producers,
}

-- What a producer or the owner does to the admission word. A producer that is refused holds
-- nothing, and one that is admitted leaves once.
pub data AdmissionStep (q : IngressQueue) (held : ℕ) : IngressQueue → ℕ → Type 0 where
  admitted :
      (acquire_admission q).1 ≡ ok tt → AdmissionStep q held (acquire_admission q).0 (held + 1)
  refused :
      (e : LambError)
      → (acquire_admission q).1 ≡ err e
      → AdmissionStep q held (acquire_admission q).0 held
  left : (n : ℕ) → held ≡ n + 1 → AdmissionStep q held (drop_admission q) n
  closed : AdmissionStep q held (close_producer_admission q) held

pub data AdmissionRun : IngressQueue → ℕ → IngressQueue → ℕ → Type 0 where
  here : {q : IngressQueue} {held : ℕ} → AdmissionRun q held q held
  step :
      {q q' q'' : IngressQueue} {held held' held'' : ℕ}
      → AdmissionStep q held q' held'
      → AdmissionRun q' held' q'' held''
      → AdmissionRun q held q'' held''

-- The word counts the producers that are inside, and is a `u64`.
pub record CountsProducers (q : IngressQueue) (held : ℕ) : Type 0 where
  pub counts : admitted_producers q ≡ held
  pub is_u64 : q.producer_admission < u64_mod

abbrev pub is_open : IngressQueue → Bool
is_open q = not (ltb q.producer_admission producer_open)

acquire_counts :
    (q : IngressQueue) (held : ℕ)
    → CountsProducers q held
    → (acquire_admission q).1 ≡ ok tt
    → CountsProducers (acquire_admission q).0 (held + 1)
unfolding acquire_admission admitted_producers
acquire_counts q held v h =
    let c = v.counts in let u = v.is_u64 in record { counts = ground arith; is_u64 = ground arith }

refuse_unchanged :
    (q : IngressQueue) (e : LambError)
    → (acquire_admission q).1 ≡ err e
    → (acquire_admission q).0 ≡ q
unfolding acquire_admission
refuse_unchanged q e h = ground arith

drop_counts :
    (q : IngressQueue) (held : ℕ)
    → CountsProducers q (held + 1)
    → CountsProducers (drop_admission q) held
unfolding drop_admission admitted_producers add_u64
drop_counts q held v =
    let c = v.counts in
    let u = v.is_u64 in
    elim (Option-cases (checked_add q.producer_generation 1)) [
      | inl n ↦ rw (drop_admission, n) (record { counts = ground arith; is_u64 = ground arith })
      | inr (g, e) ↦
          rw (drop_admission, e) (record { counts = ground arith; is_u64 = ground arith })
    ]

close_counts :
    (q : IngressQueue) (held : ℕ)
    → CountsProducers q held
    → CountsProducers (close_producer_admission q) held
unfolding close_producer_admission admitted_producers
close_counts q held v = let c = v.counts in record { counts = omega arith; is_u64 = omega arith }

closed_refuses : (q : IngressQueue) → is_open q ≡ false → (acquire_admission q).1 ≢ ok tt
unfolding acquire_admission
closed_refuses q shut h = ground arith

acquire_closed :
    (q : IngressQueue)
    → is_open q ≡ false
    → acquire_admission q ≡ (q, err (capture_invariant "capture ingress is closed"))
unfolding acquire_admission
acquire_closed q shut = ground arith

drop_closed :
    (q : IngressQueue) (held : ℕ)
    → CountsProducers q (held + 1)
    → is_open q ≡ false
    → is_open (drop_admission q) ≡ false
unfolding drop_admission admitted_producers add_u64
drop_closed q held v shut =
    let c = v.counts in
    let u = v.is_u64 in
    elim (Option-cases (checked_add q.producer_generation 1)) [
      | inl n ↦ rw (drop_admission, n) (ground arith)
      | inr (g, e) ↦ rw (drop_admission, e) (ground arith)
    ]

close_closed : (q : IngressQueue) → is_open (close_producer_admission q) ≡ false
unfolding close_producer_admission
close_closed q = ground arith

step_counts :
    {q q' : IngressQueue} {held held' : ℕ}
    → AdmissionStep q held q' held'
    → CountsProducers q held
    → CountsProducers q' held'
step_counts {q} {held = held} (admitted h) v = acquire_counts q held v h
step_counts {q} {held = held} (refused e h) v =
    subst (λ t. CountsProducers t held) (sym (refuse_unchanged q e h)) v
step_counts {q} (left n e) v = drop_counts q n (subst (CountsProducers q) e v)
step_counts {q} {held = held} closed v = close_counts q held v

step_closed :
    {q q' : IngressQueue} {held held' : ℕ}
    → AdmissionStep q held q' held'
    → CountsProducers q held
    → is_open q ≡ false
    → (is_open q' ≡ false) × (held' ≤ held)
step_closed {q} (admitted h) v shut = absurd (closed_refuses q shut h)
step_closed {q} (refused e h) v shut = (ap is_open (refuse_unchanged q e h) ∙ shut, omega arith)
step_closed {q} (left n e) v shut =
    (drop_closed q n (subst (CountsProducers q) e v) shut, omega (arith, e))
step_closed {q} closed v shut = (close_closed q, omega arith)

run_counts :
    {q q' : IngressQueue} {held held' : ℕ}
    → AdmissionRun q held q' held'
    → CountsProducers q held
    → CountsProducers q' held'
run_counts here v = v
run_counts (step s run) v = run_counts run (step_counts s v)

-- However producers come, are refused and leave, and whenever the ingress is closed: the word,
-- where it counted the producers inside at the start, counts them at the end, and is still a
-- `u64`. So the count never goes below zero and never reaches the bit for an open ingress.
pub admitted_producers_lem :
    (q q' : IngressQueue) (held held' : ℕ)
    → admitted_producers q ≡ held
    → q.producer_admission < u64_mod
    → AdmissionRun q held q' held'
    → (admitted_producers q' ≡ held') × (q'.producer_admission < u64_mod)
admitted_producers_lem q q' held held' counts is_u64 run =
    let v = run_counts run (record { counts = counts; is_u64 = is_u64 }) in (v.counts, v.is_u64)

run_closed :
    {q q' : IngressQueue} {held held' : ℕ}
    → AdmissionRun q held q' held'
    → CountsProducers q held
    → is_open q ≡ false
    → (is_open q' ≡ false) × (held' ≤ held)
run_closed here v shut = (shut, omega arith)
run_closed (step s run) v shut =
    let (shut', fewer) = step_closed s v shut in
    let (end, fewest) = run_closed run (step_counts s v) shut' in
    (end, omega (arith, fewer, fewest))

-- After the ingress is closed, where the word counted the producers inside: whatever happens next,
-- it stays closed, no more producers are inside than there were, and each one that asks is refused
-- and changes nothing.
pub close-final :
    (q q' : IngressQueue) (held held' : ℕ)
    → admitted_producers q ≡ held
    → q.producer_admission < u64_mod
    → AdmissionRun (close_producer_admission q) held q' held'
    → (admitted_producers q' ≤ held)
      × (acquire_admission q' ≡ (q', err (capture_invariant "capture ingress is closed")))
close-final q q' held held' counts is_u64 run =
    let v = close_counts q held (record { counts = counts; is_u64 = is_u64 }) in
    let (shut, fewer) = run_closed run v (close_closed q) in
    (omega (arith, fewer, (run_counts run v).counts), acquire_closed q' shut)
