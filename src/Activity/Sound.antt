-- ===== src/Activity/Sound.antt =====
-- The detector over a whole channel: it never reports activity without evidence.
use last_audio_memory_buffer.Base.{
  ℕ, both_branches, both_options, add_u64, List, [], ◌∷◌, ◌%◌, length, ◌+◌, ◌*◌, ◌≡◌, ◌≢◌, refl,
  sym, ap, subst, ◌∙◌, checked_add, none, some, true, not, ◌||◌, if◌then◌else◌, ltb, leb, ◌==◌,
  arith,
}
use last_audio_memory_buffer.Base.Error.{LambError, Result, ok, err, require, >>=-eq-ok, validation}
use last_audio_memory_buffer.Activity.{
  active, auto, WindowGeometry, geometry, FrozenChannelDecision,
}
use last_audio_memory_buffer.Activity.Detector.{
  Floats, windowed_rms_peak, WindowAccumulator, DetectorState, evaluate_window, prepare_state,
  empty_state,
}
use last_audio_memory_buffer.Activity.Detector.Evidence.{IsSound, judge_window-IsSound}
use last_audio_memory_buffer.Activity.Feed.{
  add_sample, feed_window, note_sample, feed_sample, finish_windows, doubt_non_finite, finish_state,
  feed_samples, classify, channel_decision,
}

-- Soundness reads three fields.
same-IsSound :
    {Float : Type 0} (s t : DetectorState Float)
    → t.evidence ≡ s.evidence
    → t.result ≡ s.result
    → t.gate_open_since ≡ s.gate_open_since
    → IsSound s
    → IsSound t
same-IsSound s t e r g h = record {
  unfound = λ n. let u = h.unfound (sym e ∙ n) in (r ∙ u.0, g ∙ u.1);
}

-- A predicate that holds of both ends of a step that may fail.
both_results :
    {A B : Type 0} (P : A → Type 0) (r : Result B) {x : LambError → A} {y : A}
    → ((e : LambError) → P (x e))
    → P y
    → P (elim r [ err e ↦ x e | ok _ ↦ y ])
both_results P (err e) px py = px e
both_results P (ok b) px py = py

ok-injective : {A : Type 0} {a b : A} → ok a ≡ ok b → a ≡ b
ok-injective e = cc

-- A chain that succeeds has passed its first step.
past :
    {A B : Type 0} (r : Result B) (rest : Result A) {a : A}
    → elim r [ err e ↦ err e | ok _ ↦ rest ] ≡ ok a
    → rest ≡ ok a
past (err e) rest h = absurd cc
past (ok b) rest h = h

module _ {Float : Type 0} (f : Floats Float)
    (opening_is_open : (x t : Float)
      → f.at_least x t ≡ true
      → f.at_least x (f.minus t f.six) ≡ true) where
  evaluate_window-IsSound :
      (a : WindowAccumulator Float) (transaction_start sustained : ℕ) (threshold : Float)
      (s : DetectorState Float)
      → IsSound s
      → IsSound (evaluate_window f a transaction_start sustained threshold s).0
  unfolding evaluate_window
  evaluate_window-IsSound a transaction_start sustained threshold s h =
      both_branches (λ (p : DetectorState Float × Result (Unit {0})). IsSound p.0) (a.count == 0) h
        (both_options (λ (p : DetectorState Float × Result (Unit {0})). IsSound p.0)
          (checked_add transaction_start a.start) h
          (λ window_start.
            both_options (λ (p : DetectorState Float × Result (Unit {0})). IsSound p.0)
              (checked_add window_start a.count) h
              (λ window_end.
                judge_window-IsSound f opening_is_open window_start window_end sustained threshold _
                  _ s h)))

  feed_window-IsSound :
      (sample relative_frame transaction_start : ℕ) (g : WindowGeometry) (threshold : Float)
      (s : DetectorState Float) (a : WindowAccumulator Float)
      → IsSound s
      → IsSound (feed_window f sample relative_frame transaction_start g threshold s a).0
  unfolding feed_window
  feed_window-IsSound sample relative_frame transaction_start g threshold s a h =
      both_branches
        (λ (p : DetectorState Float × WindowAccumulator Float × Result (Unit {0})). IsSound p.0)
        (ltb relative_frame a.start || leb (add_u64 a.start g.window) relative_frame) h
        (both_branches
          (λ (p : DetectorState Float × WindowAccumulator Float × Result (Unit {0})). IsSound p.0)
          ((add_sample f sample a).count == g.window)
          (both_options
            (λ (p : DetectorState Float × WindowAccumulator Float × Result (Unit {0})). IsSound p.0)
            (checked_add a.start (2 * g.hop)) h
            (λ next.
              evaluate_window-IsSound (add_sample f sample a) transaction_start g.sustained
                threshold s h))
          h)

  note_sample-IsSound :
      (sample absolute_frame : ℕ) (s : DetectorState Float)
      → IsSound s
      → IsSound (note_sample f windowed_rms_peak sample absolute_frame s)
  note_sample-IsSound sample absolute_frame s h =
      let u = h.unfound in record { unfound = λ e. ground arith }

  feed_sample-IsSound :
      (sample relative_frame transaction_start : ℕ) (g : WindowGeometry) (level : Float)
      (s : DetectorState Float)
      → IsSound s
      → IsSound
          (feed_sample f windowed_rms_peak sample relative_frame transaction_start g
            (some level)
            s).0
  unfolding feed_sample
  feed_sample-IsSound sample relative_frame transaction_start g level s h =
      both_options (λ (p : DetectorState Float × Result (Unit {0})). IsSound p.0)
        (checked_add transaction_start relative_frame) h
        (λ absolute_frame.
          let noted = note_sample f windowed_rms_peak sample absolute_frame s in
          let one =
            feed_window f sample relative_frame transaction_start g level noted noted.first in
          let after_one = record one.0 { first = one.1 } in
          let two =
            feed_window f sample relative_frame transaction_start g level after_one
              after_one.second in
          let sound_one = same-IsSound one.0 after_one refl refl refl (
            feed_window-IsSound sample relative_frame transaction_start g level noted noted.first
              (note_sample-IsSound sample absolute_frame s h)) in
          both_results (λ (p : DetectorState Float × Result (Unit {0})). IsSound p.0) one.2
            (λ e. sound_one)
            (same-IsSound two.0 (record two.0 { second = two.1 }) refl refl refl
              (feed_window-IsSound sample relative_frame transaction_start g level after_one
                after_one.second sound_one)))

  feed_samples-IsSound :
      (samples : List ℕ) (relative_frame start_frame : ℕ) (g : WindowGeometry) (level : Float)
      (s : DetectorState Float) {t : DetectorState Float}
      → IsSound s
      → feed_samples f samples relative_frame start_frame g (some level) s ≡ ok t
      → IsSound t
  unfolding feed_samples
  feed_samples-IsSound [] relative_frame start_frame g level s h e =
      let same : s ≡ _ = cc in subst IsSound same h
  feed_samples-IsSound (sample ∷ samples) relative_frame start_frame g level s h e =
      let fed =
        feed_sample f windowed_rms_peak sample relative_frame start_frame g (some level) s in
      feed_samples-IsSound samples (relative_frame + 1) start_frame g level fed.0
        (feed_sample-IsSound sample relative_frame start_frame g level s h)
        (past fed.1 (feed_samples f samples (relative_frame + 1) start_frame g (some level) fed.0)
          e)

  finish_windows-IsSound :
      (transaction_start : ℕ) (g : WindowGeometry) (level : Float) (s : DetectorState Float)
      → IsSound s
      → IsSound (finish_windows f transaction_start g level s).0
  unfolding finish_windows
  finish_windows-IsSound transaction_start g level s h =
      let early = if ltb s.second.start s.first.start then s.second else s.first in
      let late = if ltb s.second.start s.first.start then s.first else s.second in
      let one = evaluate_window-IsSound early transaction_start g.sustained level s h in
      both_results (λ (p : DetectorState Float × Result (Unit {0})). IsSound p.0)
        (evaluate_window f early transaction_start g.sustained level s).1 (λ e. one)
        (evaluate_window-IsSound late transaction_start g.sustained level
          (evaluate_window f early transaction_start g.sustained level s).0 one)

  prepared-IsSound :
      (g : WindowGeometry) (level : Float) (start_frame : ℕ)
      → IsSound (prepare_state f windowed_rms_peak g (some level) start_frame (empty_state f))
  unfolding prepare_state empty_state
  prepared-IsSound g level start_frame = record { unfound = λ _. (refl, refl) }

  abbrev ActiveFound : DetectorState Float → Type 0
  ActiveFound s = s.result ≡ active → s.evidence ≢ none

  sound_found : (s : DetectorState Float) → IsSound s → ActiveFound s
  sound_found s h a n = let u = h.unfound n in absurd (cc (u.0, a))

  doubt_found : (s : DetectorState Float) → IsSound s → ActiveFound (doubt_non_finite f s)
  doubt_found s h = both_branches ActiveFound s.non_finite (λ a. absurd cc) (sound_found s h)

  finish_found :
      (transaction_start : ℕ) (g : WindowGeometry) (level : Float) (s : DetectorState Float)
      → IsSound s
      → ActiveFound (finish_state f windowed_rms_peak transaction_start g (some level) s).0
  unfolding finish_state
  finish_found transaction_start g level s h =
      let finished = finish_windows f transaction_start g level s in
      let sound = finish_windows-IsSound transaction_start g level s h in
      both_results (λ (p : DetectorState Float × Result (Unit {0})). ActiveFound p.0) finished.1
        (λ e. sound_found finished.0 sound) (doubt_found finished.0 sound)

  -- Where a level above a threshold is also above the threshold less 6 dB, a channel that the
  -- detector finds active, by a finite threshold, has a first frame of evidence.
  pub classify-active :
      (samples : List ℕ) (channels start_frame sample_rate : ℕ) (level : Float)
      {d : FrozenChannelDecision}
      → classify f samples channels start_frame sample_rate (some level) ≡ ok d
      → d.result ≡ active
      → d.first_evidence_frame ≢ none
  unfolding classify channel_decision
  classify-active samples channels start_frame sample_rate level {d} h found missing =
      let (_, _, h1) =
        >>=-eq-ok
          (require
            (not (not (channels == 1) || sample_rate == 0 || not (length samples % channels == 0)))
            (validation "invalid windowed detector geometry"))
          _ h in
      let (g, _, h2) = >>=-eq-ok (geometry sample_rate) _ h1 in
      let (fed, e, h3) =
        >>=-eq-ok
          (feed_samples f samples 0 start_frame g (some level)
            (prepare_state f windowed_rms_peak g (some level) start_frame (empty_state f)))
          _ h2 in
      let sound =
        feed_samples-IsSound samples 0 start_frame g level
          (prepare_state f windowed_rms_peak g (some level) start_frame (empty_state f))
          (prepared-IsSound g level start_frame) e in
      let finished = finish_state f windowed_rms_peak start_frame g (some level) fed in
      let same : channel_decision auto finished.0 ≡ d =
        ok-injective (past finished.1 (ok (channel_decision auto finished.0)) h3) in
      finish_found start_frame g level fed sound (ap (λ c. c.result) same ∙ found)
        (ap (λ c. c.first_evidence_frame) same ∙ missing)
