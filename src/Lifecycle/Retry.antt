-- ===== src/Lifecycle/Retry.antt =====
-- The backoff of `retry_delay`: its bounds, its order and its last delay.
use last_audio_memory_buffer.Base.{
  ℕ, zero, suc, length, ◌+◌, ◌-◌, ◌*◌, ◌∙◌, ap, lt-or-le, ◌≤◌, ◌≡◌, inl, inr, refl, min, some, none,
  String, arith, u64_max, u32_max, u64_mod, checked_add, List, [], ◌∷◌,
}
use last_audio_memory_buffer.Lifecycle.{
  CaptureState, LifecycleState, retry_delay, retry_delays, instant_add, mark_transient, Event,
  fail_transiently, step, steps,
}

-- The delay from the sixth attempt on.
retry_delay_last : (attempt : ℕ) → 6 ≤ attempt → retry_delay attempt ≡ 60000
unfolding retry_delay
retry_delay_last attempt h =
    let e : min (attempt - 1) (length retry_delays - 1) ≡ 5 = omega arith in rw (retry_delay, e)

-- The delay is between a second and a minute, it is a minute from the sixth attempt on, and a later
-- attempt never waits less.
pub retry_delay_lem :
    (attempt : ℕ)
    → (1000 ≤ retry_delay attempt)
      × (retry_delay attempt ≤ 60000)
      × (6 ≤ attempt → retry_delay attempt ≡ 60000)
      × (retry_delay attempt ≤ retry_delay (suc attempt))
unfolding retry_delay
retry_delay_lem zero = (omega arith, omega arith, λ h. omega (arith, h), omega arith)
retry_delay_lem (suc zero) = (omega arith, omega arith, (λ h. omega (arith, h)), omega arith)
retry_delay_lem (suc (suc zero)) = (omega arith, omega arith, (λ h. omega (arith, h)), omega arith)
retry_delay_lem (suc (suc (suc zero))) =
    (omega arith, omega arith, (λ h. omega (arith, h)), omega arith)
retry_delay_lem (suc (suc (suc (suc zero)))) =
    (omega arith, omega arith, (λ h. omega (arith, h)), omega arith)
retry_delay_lem (suc (suc (suc (suc (suc zero))))) =
    (omega arith, omega arith, (λ h. omega (arith, h)), omega arith)
retry_delay_lem (suc (suc (suc (suc (suc (suc k)))))) =
    let e = retry_delay_last (suc (suc (suc (suc (suc (suc k)))))) (omega arith) in
    let f = retry_delay_last (suc (suc (suc (suc (suc (suc (suc k))))))) (omega arith) in
    (omega arith, omega arith, (λ h. e), omega arith)

-- The seconds that are waited before each attempt, counted from 1: what the tests of the source
-- expect.
abbrev pub backoff_seconds : ℕ → ℕ
backoff_seconds zero = 1
backoff_seconds (suc zero) = 1
backoff_seconds (suc (suc zero)) = 2
backoff_seconds (suc (suc (suc zero))) = 5
backoff_seconds (suc (suc (suc (suc zero)))) = 10
backoff_seconds (suc (suc (suc (suc (suc zero))))) = 30
backoff_seconds _ = 60

retry_delay-backoff : (attempt : ℕ) → retry_delay attempt ≡ 1000 * backoff_seconds attempt
unfolding retry_delay
retry_delay-backoff zero = refl
retry_delay-backoff (suc zero) = refl
retry_delay-backoff (suc (suc zero)) = refl
retry_delay-backoff (suc (suc (suc zero))) = refl
retry_delay-backoff (suc (suc (suc (suc zero)))) = refl
retry_delay-backoff (suc (suc (suc (suc (suc zero))))) = refl
retry_delay-backoff (suc (suc (suc (suc (suc (suc k)))))) =
    retry_delay_last (suc (suc (suc (suc (suc (suc k)))))) (omega arith)

-- The due time `mark_transient` sets: after the delay, or the clock's last instant.
due_exact :
    (now d : ℕ)
    → now ≤ u64_max
    → 1000 ≤ d
    → d ≤ 60000
    → (at : ℕ) × (elim (instant_add now d) [ some at ↦ some at | none ↦ some u64_max ] ≡ some at)
      × (min (now + 1000) u64_max ≤ at)
      × (at ≤ now + 60000)
      × (at ≤ u64_max)
      × (at ≡ min (now + d) u64_max)
unfolding instant_add checked_add
due_exact now d h l u = elim (lt-or-le (now + d) u64_mod) [
  | inl lt ↦ (now + d, ground arith, omega arith, omega arith, omega arith, omega arith)
  | inr le ↦ (u64_max, ground arith, omega arith, omega arith, omega arith, omega arith)
]

-- A transient failure at a `u64` instant counts one more attempt, which saturates, and plans the
-- next one after 1, 2, 5, 10 or 30 seconds for the attempts 1 to 5 and after 60 seconds from the
-- sixth on, or at the clock's last instant if that is earlier: so at least a second and at most a
-- minute later, or at the last instant.
pub transient_lem :
    (capture : CaptureState)
    → (error : String) → (now : ℕ) → (s : LifecycleState) → now ≤ u64_max
    → let s' = mark_transient capture error now s in
      (s'.retry_attempt ≡ min (s.retry_attempt + 1) u32_max)
      × ((at : ℕ) × (s'.next_retry_at ≡ some at)
          × (min (now + 1000) u64_max ≤ at)
          × (at ≤ now + 60000)
          × (at ≤ u64_max)
          × (at ≡ min (now + 1000 * backoff_seconds s'.retry_attempt) u64_max))
unfolding mark_transient
transient_lem capture error now s h =
    let attempt = min (s.retry_attempt + 1) u32_max in
    let d = retry_delay_lem attempt in
    let (at, planned, lower, upper, fits, exact) = due_exact now (retry_delay attempt) h d.0 d.1 in
    let delay = ap (λ n. min (now + n) u64_max) (retry_delay-backoff attempt) in
    (refl, (at, planned, lower, upper, fits, exact ∙ delay))

-- The transient failures of a run, each with its capture state, its message and its instant.
abbrev pub failures : List (CaptureState × String × ℕ) → List Event
failures [] = []
failures ((capture, error, now) ∷ rest) = fail_transiently capture error now ∷ failures rest

-- From an attempt that is a `u32`, failures in a row count up by one each, and the count stays at
-- `u32_max`.
pub failures-attempt :
    (s : LifecycleState)
    → (rest : List (CaptureState × String × ℕ)) → s.retry_attempt ≤ u32_max
    → (steps s (failures rest)).retry_attempt ≡ min (s.retry_attempt + length rest) u32_max
unfolding steps step mark_transient
failures-attempt s [] h = omega arith
failures-attempt s ((capture, error, now) ∷ rest) h =
    let ih = failures-attempt (mark_transient capture error now s) rest (omega arith) in
    omega (arith, ih)
