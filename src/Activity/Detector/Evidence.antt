-- ===== src/Activity/Detector/Evidence.antt =====
-- What one window does to the evidence of the detector.
use last_audio_memory_buffer.Base.{ℕ, ◌≡◌, none, true, arith}
use last_audio_memory_buffer.Activity.{inactive}
use last_audio_memory_buffer.Activity.Detector.{Floats, DetectorState, move_gate, judge_window}

-- Without evidence nothing has been found: the result is inactive and the gate is shut.
pub record IsSound {Float : Type 0} (s : DetectorState Float) : Type 0 where
  pub unfound : s.evidence ≡ none → (s.result ≡ inactive) × (s.gate_open_since ≡ none)

module _ {Float : Type 0} (f : Floats Float)
    (opening_is_open : (x t : Float)
      → f.at_least x t ≡ true
      → f.at_least x (f.minus t f.six) ≡ true) where
  pub judge_window-IsSound :
      (window_start window_end sustained : ℕ) (threshold rms_dbfs peak_dbfs : Float)
      (s : DetectorState Float)
      → IsSound s
      → IsSound (judge_window f window_start window_end sustained threshold rms_dbfs peak_dbfs s)
  unfolding judge_window move_gate
  judge_window-IsSound window_start window_end sustained threshold rms_dbfs peak_dbfs s h =
      let o = opening_is_open rms_dbfs threshold in
      let u = h.unfound in record { unfound = λ e. ground arith }
