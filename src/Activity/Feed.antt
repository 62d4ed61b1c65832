-- ===== src/Activity/Feed.antt =====
-- src/activity.rs: the detector fed with samples, and its decision at the end.
use last_audio_memory_buffer.Base.{
  ℕ, ◌%◌, length, List, [], ◌∷◌, ◌+◌, ◌*◌, add_u32, add_u64, checked_add, Option, none, some, true,
  not, ◌||◌, if◌then◌else◌, ltb, leb, ◌==◌,
}
use last_audio_memory_buffer.Base.Error.{
  ◌>>=◌, ◌>>◌, require, validation, Result, ok, err, export_invariant,
}
use last_audio_memory_buffer.Activity.{
  ChannelExportMode, geometry, auto, active, ambiguous, canonical_disposition,
  FrozenChannelDecision, WindowGeometry,
}
use last_audio_memory_buffer.Activity.Detector.{
  Floats, ActivityDetectorKind, windowed_rms_peak, prepare_state, empty_state, is_windowed,
  is_exact_zero, WindowAccumulator, DetectorState, evaluate_window,
}

module _ {Float : Type 0} (f : Floats Float) where
  -- A sample that falls into the window of an accumulator.
  abbrev pub add_sample : ℕ → WindowAccumulator Float → WindowAccumulator Float
  add_sample sample a =
      let counted = record a { count = add_u32 a.count 1 } in
      if f.sample_is_finite sample
      then (let value = f.of_sample sample in
          record counted {
            sum_squares = f.plus a.sum_squares (f.times value value);
            peak = f.maximum a.peak (f.absolute value);
          })
      else counted

  -- The body of the loop over the accumulators, on one of them.
  unfoldable pub feed_window :
      ℕ
      → ℕ
      → ℕ
      → WindowGeometry
      → Float
      → DetectorState Float
      → WindowAccumulator Float
      → DetectorState Float × WindowAccumulator Float × Result (Unit {0})
  unfolding evaluate_window
  feed_window sample relative_frame transaction_start g threshold s a =
      if ltb relative_frame a.start || leb (add_u64 a.start g.window) relative_frame
      then (s, a, ok tt)
      else let completed = add_sample sample a in
        if completed.count == g.window
        then elim (checked_add a.start (2 * g.hop)) [
          | none ↦ (s, completed, err (export_invariant "activity window overflow"))
          | some next ↦
              let (s', result) =
                evaluate_window f completed transaction_start g.sustained threshold s in
              (
                s',
                record { start = next; sum_squares = f.nought; peak = f.nought; count = 0 },
                result,
              )
        ]
        else (s, completed, ok tt)

  -- What a sample shows by itself.
  abbrev pub note_sample : ActivityDetectorKind → ℕ → ℕ → DetectorState Float → DetectorState Float
  note_sample detector sample absolute_frame s =
      if not (f.sample_is_finite sample)
      then record s { non_finite = true }
      else if not (f.sample_is_zero sample)
      then (let nonzero = record s { exact_nonzero = true } in
          if is_exact_zero detector
          then record nonzero {
            result = active;
            evidence = elim s.evidence [ none ↦ some absolute_frame | some frame ↦ some frame ];
          }
          else nonzero)
      else s

  unfoldable pub feed_sample :
      ActivityDetectorKind
      → ℕ
      → ℕ
      → ℕ
      → WindowGeometry
      → Option Float
      → DetectorState Float
      → DetectorState Float × Result (Unit {0})
  unfolding feed_window
  feed_sample detector sample relative_frame transaction_start g threshold s =
      elim (checked_add transaction_start relative_frame) [
        | none ↦ (s, err (export_invariant "activity frame overflow"))
        | some absolute_frame ↦
            let noted = note_sample detector sample absolute_frame s in
            elim threshold [
              | none ↦ (noted, ok tt)
              | some level ↦
                  if not (is_windowed detector)
                  then (noted, ok tt)
                  else let one =
                      feed_window sample relative_frame transaction_start g level noted
                        noted.first in
                    let after_one = record one.0 { first = one.1 } in
                    elim one.2 [
                      | err e ↦ (after_one, err e)
                      | ok _ ↦
                          let two =
                            feed_window sample relative_frame transaction_start g level after_one
                              after_one.second in
                          (record two.0 { second = two.1 }, two.2)
                    ]
            ]
      ]

  -- The partial windows at the end, the earlier one first.
  unfoldable pub finish_windows :
      ℕ → WindowGeometry → Float → DetectorState Float → DetectorState Float × Result (Unit {0})
  unfolding evaluate_window
  finish_windows transaction_start g threshold s =
      let early = if ltb s.second.start s.first.start then s.second else s.first in
      let late = if ltb s.second.start s.first.start then s.first else s.second in
      let one = evaluate_window f early transaction_start g.sustained threshold s in
      elim one.1 [
        | err e ↦ (one.0, err e)
        | ok _ ↦ evaluate_window f late transaction_start g.sustained threshold one.0
      ]

  abbrev pub doubt_non_finite : DetectorState Float → DetectorState Float
  doubt_non_finite s = if s.non_finite then record s { result = ambiguous } else s

  unfoldable pub finish_state :
      ActivityDetectorKind
      → ℕ
      → WindowGeometry
      → Option Float
      → DetectorState Float
      → DetectorState Float × Result (Unit {0})
  unfolding finish_windows
  finish_state detector transaction_start g threshold s = elim threshold [
    | none ↦ (doubt_non_finite s, ok tt)
    | some level ↦
        if not (is_windowed detector)
        then (doubt_non_finite s, ok tt)
        else let finished = finish_windows transaction_start g level s in
          elim finished.1 [
            | err e ↦ (finished.0, err e)
            | ok _ ↦ (doubt_non_finite finished.0, ok tt)
          ]
  ]

unfoldable pub channel_decision :
    {Float : Type 0} → ChannelExportMode → DetectorState Float → FrozenChannelDecision
unfolding canonical_disposition
channel_decision mode s = record {
  mode = mode;
  result = s.result;
  disposition = canonical_disposition mode s.result;
  first_evidence_frame = s.evidence;
}

-- The loop of `classify` over the samples, from frame `relative_frame` on.
unfoldable pub feed_samples :
    {Float : Type 0}
    → Floats Float
    → List ℕ
    → ℕ
    → ℕ
    → WindowGeometry
    → Option Float
    → DetectorState Float
    → Result (DetectorState Float)
feed_samples f [] relative_frame start_frame g threshold s = ok s
feed_samples f (sample ∷ samples) relative_frame start_frame g threshold s =
    let fed = feed_sample f windowed_rms_peak sample relative_frame start_frame g threshold s in
    elim fed.1 [
      | err e ↦ err e
      | ok _ ↦ feed_samples f samples (relative_frame + 1) start_frame g threshold fed.0
    ]

-- `WindowedRmsPeakDetector::classify`, on the one state of its workspace, which it resets.
-- `threshold` is the threshold if it is finite.
unfoldable pub classify :
    {Float : Type 0}
    → Floats Float
    → List ℕ
    → ℕ
    → ℕ
    → ℕ
    → Option Float
    → Result FrozenChannelDecision
unfolding feed_samples finish_state
classify f samples channels start_frame sample_rate threshold = do
  require (not (not (channels == 1) || sample_rate == 0 || not (length samples % channels == 0)))
      (validation "invalid windowed detector geometry")
  g ← geometry sample_rate
  let prepared = prepare_state f windowed_rms_peak g threshold start_frame (empty_state f)
  fed ← feed_samples f samples 0 start_frame g threshold prepared
  let finished = finish_state f windowed_rms_peak start_frame g threshold fed
  elim finished.1 [ err e ↦ err e | ok _ ↦ ok (channel_decision auto finished.0) ]
