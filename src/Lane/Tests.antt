-- ===== src/Lane/Tests.antt =====
-- A lane of one place on concrete histories.
use last_audio_memory_buffer.Base.{ℕ, ◌≡◌, refl, List, [], ◌∷◌, false}
use last_audio_memory_buffer.Base.Error.{ok}
use last_audio_memory_buffer.Lane.{LaneState, waiting, new_lane, start_worker}
use last_audio_memory_buffer.Lane.Serving.{
  LaneEvent, submits, closes, works, lane_run, Serves, lane_run_lem,
}

abbrev one_place : LaneState ℕ
one_place = record { queue = []; capacity = 1; is_closed = false }

one_place-new : new_lane 1 ≡ ok one_place
unfolding new_lane
one_place-new = refl

-- The first job is handled, the second is in the queue when the lane is closed, and is cancelled.
abbrev busy : List (LaneEvent ℕ)
busy = submits 7 ∷ works ∷ works ∷ submits 8 ∷ submits 9 ∷ closes ∷ works ∷ works ∷ []

busy_handled : (lane_run busy (start_worker one_place)).handled ≡ 7 ∷ []
unfolding lane_run
busy_handled = refl

busy_cancelled : (lane_run busy (start_worker one_place)).cancelled ≡ 8 ∷ []
unfolding lane_run
busy_cancelled = refl

-- A close between the look at an empty queue and the wait does not wake the worker.
missed_close : (lane_run (works ∷ closes ∷ works ∷ []) (start_worker one_place)).phase ≡ waiting
unfolding lane_run
missed_close = refl

lane_run_example : Serves (lane_run busy (start_worker one_place))
lane_run_example = lane_run_lem 1 one_place busy one_place-new
