-- ===== src/Activity/Detector.antt =====
-- src/activity.rs: the windowed detector of one channel, sample by sample. Floating-point numbers
-- are a type with the operations the detector calls; a sample is the bit pattern of an `f32`.
pub mod Evidence
use last_audio_memory_buffer.Base.{
  ℕ, ◌+◌, ◌-◌, ◌*◌, min, add_u32, add_u64, checked_add, Option, none, some, Bool, true, false, not,
  ◌||◌, ◌&&◌, if◌then◌else◌, ltb, leb, ◌==◌,
}
use last_audio_memory_buffer.Base.Error.{Result, ok, err, export_invariant}
use last_audio_memory_buffer.Activity.{
  ChannelExportMode, ActivityResult, active, inactive, ambiguous, canonical_disposition,
  FrozenChannelDecision, WindowGeometry,
}

-- The operations on `f64`, and what is asked of an `f32` sample.
pub record Floats (Float : Type 0) : Type 0 where
  pub sample_is_finite : ℕ → Bool
  pub sample_is_zero : ℕ → Bool
  pub of_sample : ℕ → Float
  pub of_count : ℕ → Float
  pub plus : Float → Float → Float
  pub minus : Float → Float → Float
  pub times : Float → Float → Float
  pub divided : Float → Float → Float
  pub maximum : Float → Float → Float
  pub absolute : Float → Float
  pub root : Float → Float
  pub log10 : Float → Float
  pub is_zero : Float → Bool
  pub at_least : Float → Float → Bool
  pub less : Float → Float → Bool
  pub nought : Float
  pub six : Float
  pub twelve : Float
  pub twenty : Float
  pub floor_dbfs : Float

pub data ActivityDetectorKind : Type 0 where
  exact_zero windowed_rms_peak fixed_level calibrated_noise_floor : ActivityDetectorKind

abbrev pub is_windowed : ActivityDetectorKind → Bool
is_windowed windowed_rms_peak = true
is_windowed exact_zero = false
is_windowed fixed_level = false
is_windowed calibrated_noise_floor = false

abbrev pub is_exact_zero : ActivityDetectorKind → Bool
is_exact_zero exact_zero = true
is_exact_zero windowed_rms_peak = false
is_exact_zero fixed_level = false
is_exact_zero calibrated_noise_floor = false

abbrev pub is_inactive : ActivityResult → Bool
is_inactive inactive = true
is_inactive active = false
is_inactive ambiguous = false

pub record WindowAccumulator (Float : Type 0) : Type 0 where
  pub start : ℕ
  pub sum_squares : Float
  pub peak : Float
  pub count : ℕ

-- `DetectorState`, with its two accumulators by name.
pub record DetectorState (Float : Type 0) : Type 0 where
  pub first : WindowAccumulator Float
  pub second : WindowAccumulator Float
  pub gate_open_since : Option ℕ
  pub result : ActivityResult
  pub non_finite : Bool
  pub exact_nonzero : Bool
  pub evidence : Option ℕ

module _ {Float : Type 0} (f : Floats Float) where
  unfoldable pub new_window : ℕ → WindowAccumulator Float
  new_window start = record { start = start; sum_squares = f.nought; peak = f.nought; count = 0 }

  unfoldable pub empty_state : DetectorState Float
  unfolding new_window
  empty_state = record {
    first = new_window 0;
    second = new_window 0;
    gate_open_since = none;
    result = inactive;
    non_finite = false;
    exact_nonzero = false;
    evidence = none;
  }

  -- `prepare_state`, with `prepare_windowed`.
  unfoldable pub prepare_state :
      ActivityDetectorKind
      → WindowGeometry
      → Option Float
      → ℕ
      → DetectorState Float
      → DetectorState Float
  unfolding new_window
  prepare_state detector g threshold transaction_start s =
      if is_windowed detector
      then (let windowed = record s { first = new_window 0; second = new_window g.hop } in
          elim threshold [
            | none ↦ record windowed { result = ambiguous; evidence = some transaction_start }
            | some _ ↦ windowed
          ])
      else s

  unfoldable pub dbfs : Float → Float
  dbfs value = if f.is_zero value then f.floor_dbfs else f.times f.twenty (f.log10 value)

  -- The evidence of a window that is loud enough.
  abbrev pub note_evidence : ℕ → DetectorState Float → DetectorState Float
  note_evidence window_start s = record s {
    evidence = elim s.evidence [
      | none ↦ some window_start
      | some current ↦ some (min current window_start)
    ];
    result = if is_inactive s.result then ambiguous else s.result;
  }

  -- The gate: opened by a loud window, closed by a quiet one, and sustained between them.
  unfoldable pub move_gate : ℕ → ℕ → ℕ → Bool → Bool → DetectorState Float → DetectorState Float
  move_gate window_start window_end sustained opens closes s = elim s.gate_open_since [
    | some open_since ↦
        if closes
        then record s { gate_open_since = none }
        else if leb sustained (window_end - open_since)
        then record s { result = active }
        else s
    | none ↦
        if opens
        then (let opened = record s { gate_open_since = some window_start } in
            if leb sustained (window_end - window_start)
            then record opened { result = active }
            else opened)
        else s
  ]

  -- `evaluate_window` after its checks, on the levels of the window.
  unfoldable pub judge_window :
      ℕ → ℕ → ℕ → Float → Float → Float → DetectorState Float → DetectorState Float
  unfolding move_gate
  judge_window window_start window_end sustained threshold rms_dbfs peak_dbfs s =
      let close_threshold = f.minus threshold f.six in
      let transient = f.at_least peak_dbfs (f.plus threshold f.twelve) in
      let noted =
        if f.at_least rms_dbfs close_threshold || transient
        then note_evidence window_start s
        else s in
      if transient
      then record noted { result = active }
      else move_gate window_start window_end sustained (f.at_least rms_dbfs threshold)
          (f.less rms_dbfs close_threshold) noted

  unfoldable pub evaluate_window :
      WindowAccumulator Float
      → ℕ
      → ℕ
      → Float
      → DetectorState Float
      → DetectorState Float × Result (Unit {0})
  unfolding judge_window dbfs
  evaluate_window a transaction_start sustained threshold s =
      if a.count == 0 then (s, ok tt) else elim (checked_add transaction_start a.start) [
        | none ↦ (s, err (export_invariant "activity evidence overflow"))
        | some window_start ↦ elim (checked_add window_start a.count) [
          | none ↦ (s, err (export_invariant "activity window end overflow"))
          | some window_end ↦ (
            judge_window window_start window_end sustained threshold
                (dbfs (f.root (f.divided a.sum_squares (f.of_count a.count)))) (dbfs a.peak) s,
            ok tt,
          )
        ]
      ]
