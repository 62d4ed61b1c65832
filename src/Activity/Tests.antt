-- ===== src/Activity/Tests.antt =====
-- A decision on two channels, and a detector over whole numbers for levels.
use last_audio_memory_buffer.Base.{
  ℕ, ◌+◌, ◌-◌, ◌*◌, ◌≤◌, ◌≡◌, ◌≢◌, refl, ap, List, [], ◌∷◌, none, some, true, false, arith, max,
  length, leb, ltb, ◌==◌, div_ceil, checked_add, add_u32, add_u64,
}
use last_audio_memory_buffer.Base.Error.{ok}
use last_audio_memory_buffer.Activity.{
  auto, active, inactive, retain, omit, FrozenChannelDecision, FrozenExportDecision, empty_decision,
  finalize, geometry, canonical_disposition, first_evidence, export_start_of,
}
use last_audio_memory_buffer.Activity.Detector.{Floats, prepare_state, empty_state}
use last_audio_memory_buffer.Activity.Feed.{classify, channel_decision, feed_sample}
use last_audio_memory_buffer.Activity.Finalize.{AllKept, Decides, is_forced, finalize_lem}
use last_audio_memory_buffer.Activity.Sound.{classify-active}

abbrev two_channels : List FrozenChannelDecision
two_channels =
    record { mode = auto; result = active; disposition = retain; first_evidence_frame = some 900 }
    ∷ record { mode = auto; result = inactive; disposition = omit; first_evidence_frame = none }
    ∷ []

abbrev unfinished : FrozenExportDecision ℕ
unfinished = record {
  channels = empty_decision ∷ empty_decision ∷ [];
  export_start = 0;
  export_end = 0;
  sample_rate = 100;
  valid = false;
  frozen_epoch = none;
  storage_id = 1;
}

abbrev finished : FrozenExportDecision ℕ
finished = record unfinished {
  channels = two_channels;
  export_start = 700;
  export_end = 1000;
  valid = true;
}

ok-finalize : finalize 0 1000 two_channels true false unfinished ≡ (finished, ok tt)
unfolding finalize canonical_disposition first_evidence export_start_of
ok-finalize = refl

finalize_example :
    let d' = (finalize 0 1000 two_channels true false unfinished).0 in
    (unfinished.valid ≡ false)
    × (d'.valid ≡ true)
    × (d'.export_end ≡ 1000)
    × (0 ≤ d'.export_start)
    × (d'.export_start ≤ 1000)
    × (length d'.channels ≡ length unfinished.channels)
    × AllKept d'.export_start d'.export_end d'.channels
    × Decides (is_forced two_channels false) true 100 0 two_channels d'
finalize_example =
    finalize_lem 0 1000 two_channels true false unfinished (ap (λ p. p.1) ok-finalize)

-- Levels as whole numbers, with the logarithm as the identity.
abbrev levels : Floats ℕ
levels = record {
  sample_is_finite = λ _. true;
  sample_is_zero = λ x. x == 0;
  of_sample = λ x. x;
  of_count = λ x. x;
  plus = λ x y. x + y;
  minus = λ x y. x - y;
  times = λ x y. x * y;
  divided = λ x y. x;
  maximum = λ x y. max x y;
  absolute = λ x. x;
  root = λ x. x;
  log10 = λ x. x;
  is_zero = λ x. x == 0;
  at_least = λ x y. leb y x;
  less = λ x y. ltb x y;
  nought = 0;
  six = 6;
  twelve = 12;
  twenty = 1;
  floor_dbfs = 0;
}

levels_open : (x t : ℕ) → leb t x ≡ true → leb (t - 6) x ≡ true
levels_open x t h = ground arith

abbrev loud : FrozenChannelDecision
loud = record { mode = auto; result = active; disposition = retain; first_evidence_frame = some 5 }

loud_channel : classify levels (30 ∷ 30 ∷ []) 1 5 100 (some 10) ≡ ok loud
unfolding classify geometry div_ceil feed_sample checked_add prepare_state add_u64 add_u32
    channel_decision empty_state
loud_channel = refl

classify-active_example : loud.first_evidence_frame ≢ none
classify-active_example =
    classify-active levels levels_open (30 ∷ 30 ∷ []) 1 5 100 10 loud_channel refl
