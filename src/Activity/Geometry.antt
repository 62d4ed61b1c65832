-- ===== src/Activity/Geometry.antt =====
-- The windows of the detector: their size, and that none of their arithmetic overflows.
use last_audio_memory_buffer.Base.{
  ℕ, ◌+◌, ◌*◌, ◌<◌, ◌≤◌, ◌≡◌, max, u32_max, div_ceil, div_ceil-le_mul, div_ceil-mul_lt, arith,
}
use last_audio_memory_buffer.Base.Error.{ok}
use last_audio_memory_buffer.Activity.{WindowGeometry, geometry}

-- Every positive `u32` sample rate has a geometry: a hop is no longer than a window, and a window
-- no longer than two hops; a window is 20 ms, rounded up to frames, and the sustained time at
-- least 100 ms.
pub geometry_lem :
    (sample_rate : ℕ)
    → 0 < sample_rate
    → sample_rate ≤ u32_max
    → (g : WindowGeometry) × (geometry sample_rate ≡ ok g)
      × (0 < g.hop)
      × (g.hop ≤ g.window)
      × (g.window ≤ 2 * g.hop)
      × (sample_rate * 20 ≤ g.window * 1000)
      × (g.window * 1000 < sample_rate * 20 + 1000)
      × (sample_rate * 100 ≤ g.sustained * 1000)
unfolding geometry
geometry_lem sample_rate some_rate small =
    let w = div_ceil-le_mul (sample_rate * 20) 1000 (omega arith) in
    let w' = div_ceil-mul_lt (sample_rate * 20) 1000 (omega arith) in
    let h = div_ceil-le_mul (sample_rate * 10) 1000 (omega arith) in
    let h' = div_ceil-mul_lt (sample_rate * 10) 1000 (omega arith) in
    let s = div_ceil-le_mul (sample_rate * 100) 1000 (omega arith) in
    (
      record {
        window = max (div_ceil (sample_rate * 20) 1000) 1;
        hop = max (div_ceil (sample_rate * 10) 1000) 1;
        sustained = max (div_ceil (sample_rate * 100) 1000) 1;
      },
      ground arith,
      omega arith,
      omega arith,
      omega arith,
      omega arith,
      omega arith,
      omega arith,
    )
