-- ===== src/Activity.antt =====
-- src/activity.rs: what an export does with each channel, and the window geometry of the detector.
-- A disposition is frozen once for an export, with the range that is then written.
pub mod Crop
pub mod Detector
pub mod Feed
pub mod Sound
pub mod Finalize
pub mod Geometry
mod Tests
use last_audio_memory_buffer.Base.{
  ℕ, ◌-◌, ◌*◌, min, max, List, [], ◌∷◌, map, Option, none, some, Bool, true, false, not, ◌||◌, ◌&&◌,
  if◌then◌else◌, ltb, leb, ◌==◌, length, div_ceil, u32_max, any, all,
}
use last_audio_memory_buffer.Base.Error.{
  Result, ok, err, require, ◌>>=◌, ◌>>◌, export_invariant, validation,
}

pub data ChannelExportMode : Type 0 where
  always auto never : ChannelExportMode

pub data ActivityResult : Type 0 where
  active inactive ambiguous : ActivityResult

pub data ChannelDisposition : Type 0 where
  retain omit : ChannelDisposition

unfoldable pub canonical_disposition : ChannelExportMode → ActivityResult → ChannelDisposition
canonical_disposition never result = omit
canonical_disposition always result = retain
canonical_disposition auto inactive = omit
canonical_disposition auto active = retain
canonical_disposition auto ambiguous = retain

-- `FrozenChannelDecision`
pub record FrozenChannelDecision : Type 0 where
  pub mode : ChannelExportMode
  pub result : ActivityResult
  pub disposition : ChannelDisposition
  pub first_evidence_frame : Option ℕ

-- `FrozenChannelDecision::empty`
abbrev pub empty_decision : FrozenChannelDecision
empty_decision = record {
  mode = never;
  result = inactive;
  disposition = omit;
  first_evidence_frame = none;
}

-- `FrozenExportDecision`, with `export_range` as its two ends; `Identity` is the arena's identity
-- of a frozen epoch.
pub record FrozenExportDecision (Identity : Type 0) : Type 0 where
  pub channels : List FrozenChannelDecision
  pub export_start : ℕ
  pub export_end : ℕ
  pub sample_rate : ℕ
  pub valid : Bool
  pub frozen_epoch : Option Identity
  pub storage_id : ℕ

-- The derived equality of dispositions, and of modes with `Never`.
abbrev pub same_disposition : ChannelDisposition → ChannelDisposition → Bool
same_disposition retain retain = true
same_disposition omit omit = true
same_disposition retain omit = false
same_disposition omit retain = false

abbrev pub is_never : ChannelExportMode → Bool
is_never never = true
is_never always = false
is_never auto = false

abbrev pub outside : ℕ → ℕ → Option ℕ → Bool
outside start end none = false
outside start end (some frame) = ltb frame start || leb end frame

-- The evidence of the channels that are retained, and the least of it.
abbrev pub earlier : Option ℕ → Option ℕ → Option ℕ
earlier none b = b
earlier (some a) none = some a
earlier (some a) (some b) = some (min a b)

abbrev pub retained_evidence : ChannelDisposition → Option ℕ → Option ℕ
retained_evidence retain evidence = evidence
retained_evidence omit evidence = none

unfoldable pub first_evidence : List FrozenChannelDecision → Option ℕ
first_evidence [] = none
first_evidence (c ∷ cs) =
    earlier (retained_evidence c.disposition c.first_evidence_frame) (first_evidence cs)

-- The start of the export: two seconds before the first evidence, within the frozen range.
unfoldable pub export_start_of : Bool → ℕ → ℕ → Option ℕ → ℕ
export_start_of false sample_rate frozen_start first = frozen_start
export_start_of true sample_rate frozen_start none = max frozen_start frozen_start
export_start_of true sample_rate frozen_start (some frame) =
    max (frame - 2 * sample_rate) frozen_start

abbrev pub force : Bool → FrozenChannelDecision → FrozenChannelDecision
force forced_omit c = if forced_omit then record c { disposition = omit } else c

module _ {Identity : Type 0} where
  unfoldable pub reset_decision : FrozenExportDecision Identity → FrozenExportDecision Identity
  reset_decision d = record d {
    channels = map (λ _. empty_decision) d.channels;
    export_start = 0;
    export_end = 0;
    valid = false;
    frozen_epoch = none;
  }

  -- `FrozenExportDecision::finalize`: the decision after the call, and the result.
  unfoldable pub finalize :
      ℕ
      → ℕ
      → List FrozenChannelDecision
      → Bool
      → Bool
      → FrozenExportDecision Identity
      → FrozenExportDecision Identity × Result (Unit {0})
  unfolding canonical_disposition first_evidence export_start_of
  finalize frozen_start frozen_end channels trim_leading_silence whole_export_exact_zero_gate d =
      if d.valid
      then (d, err (export_invariant "frozen export decision is already final"))
      else if ltb frozen_end frozen_start || not (length channels == length d.channels)
      then (d, err (export_invariant "invalid frozen export decision geometry"))
      else if any
          (λ (c : FrozenChannelDecision).
            not (same_disposition c.disposition (canonical_disposition c.mode c.result)))
          channels
      then (d, err (export_invariant "activity disposition contradicts mode and result"))
      else if any
          (λ (c : FrozenChannelDecision). outside frozen_start frozen_end c.first_evidence_frame)
          channels
      then (d, err (export_invariant "activity evidence is outside the frozen range"))
      else let all_never = all (λ (c : FrozenChannelDecision). is_never c.mode) channels in
        let forced_omit = all_never || whole_export_exact_zero_gate in
        let first = if forced_omit then none else first_evidence channels in
        let start = export_start_of trim_leading_silence d.sample_rate frozen_start first in
        if ltb frozen_end start
        then (d, err (export_invariant "activity crop is outside the frozen range"))
        else (
          record d {
            channels = map (force forced_omit) channels;
            export_start = start;
            export_end = frozen_end;
            valid = true;
          },
          ok tt,
        )

-- `WindowGeometry`
pub record WindowGeometry : Type 0 where
  pub window : ℕ
  pub hop : ℕ
  pub sustained : ℕ

-- `WindowGeometry::new`
unfoldable pub geometry : ℕ → Result WindowGeometry
geometry sample_rate = do
  require (not (sample_rate == 0)) (validation "windowed detector sample rate is zero")
  let window = div_ceil (sample_rate * 20) 1000
  require (leb window u32_max) (validation "window size overflow")
  let hop = div_ceil (sample_rate * 10) 1000
  require (leb hop u32_max) (validation "window hop overflow")
  let sustained = div_ceil (sample_rate * 100) 1000
  ok (record { window = max window 1; hop = max hop 1; sustained = max sustained 1 })
