-- ===== src/Math/Parts.antt =====
-- WAV parts tile the exported range, fit the size limit, and are as many as `wav_part_count` says.
use native.Mathlib.Decide.{dec_lt}
use native.Mathlib.Nat.{mul-le-mul_right, lt_of_mul-lt-mul_right, div-add-mod', mod-lt}
use last_audio_memory_buffer.Base.{
  ℕ, zero, suc, ◌+◌, ◌-◌, ◌*◌, ◌/◌, ◌<◌, ◌≤◌, ◌≡◌, ◌∙◌, refl, sym, ap, min, max, Option, some, ◌⊎◌,
  ◌↔◌, ◌≢◌, u32_max, subst, List, [], ◌∷◌, arith, length, lt→ltb, le→ltb_false, div_ceil,
  div_ceil-le_mul, div_ceil-mul_lt,
}
use last_audio_memory_buffer.Base.Error.{ok, >>=-eq-ok}
use last_audio_memory_buffer.Math.{
  derive_chunk_frames, WavPart, wav_header_bytes, parts_from, wav_frames_per_part,
  wav_parts_for_channel, wav_part_count,
}

-- The parts follow one another from `start` to `end`, each with a frame at least and a file of
-- `limit` bytes at most.
abbrev pub Tiles : ℕ → ℕ → ℕ → ℕ → List WavPart → Type 0
Tiles bytes_per_frame limit start end [] = start ≡ end
Tiles bytes_per_frame limit start end (p ∷ ps) =
    (p.start_frame ≡ start)
    × (0 < p.frame_count)
    × (wav_header_bytes + p.frame_count * bytes_per_frame ≤ limit)
    × Tiles bytes_per_frame limit (start + p.frame_count) end ps

frames_per_part_lem :
    (bytes limit : ℕ) {n : ℕ}
    → wav_frames_per_part bytes limit ≡ ok n
    → (0 < n) × (wav_header_bytes + n * bytes ≤ limit) × (0 < bytes)
unfolding wav_frames_per_part
frames_per_part_lem bytes limit h = ground (arith, div-add-mod' (limit - wav_header_bytes) bytes)

frames_per_part-given :
    (bytes limit : ℕ)
    → 0 < bytes
    → wav_header_bytes + bytes ≤ limit
    → (n : ℕ) × (wav_frames_per_part bytes limit ≡ ok n)
unfolding wav_frames_per_part
frames_per_part-given bytes limit some_bytes room = (
  (limit - wav_header_bytes) / bytes,
  ground (
    arith,
    div-add-mod' (limit - wav_header_bytes) bytes,
    mod-lt (limit - wav_header_bytes) some_bytes,
    small,
  ),
)
  where
    small : (limit - wav_header_bytes) / bytes ≢ 0
    small e = absurd (
        omega (
          arith,
          div-add-mod' (limit - wav_header_bytes) bytes,
          mod-lt (limit - wav_header_bytes) some_bytes,
          ap (λ t. t * bytes) e,
        ))

frames_per_part-needs :
    (bytes limit : ℕ) {n : ℕ}
    → wav_frames_per_part bytes limit ≡ ok n
    → (0 < bytes) × (wav_header_bytes + bytes ≤ limit)
frames_per_part-needs bytes limit {n} h = (
  omega (arith, frames_per_part_lem bytes limit h),
  omega (
    arith,
    frames_per_part_lem bytes limit h,
    mul-le-mul_right {m = 1} {n = n} bytes (omega (arith, frames_per_part_lem bytes limit h)),
  ),
)

ok-injective : {A : Type 0} {a b : A} → ok a ≡ ok b → a ≡ b
ok-injective e = cc

module _ (bytes limit total n : ℕ) (some_frames : 0 < n)
    (fits : wav_header_bytes + n * bytes ≤ limit) where
  parts_from-Tiles :
      (fuel start : ℕ)
      → start ≤ total
      → total ≤ start + fuel
      → Tiles bytes limit start total (parts_from fuel total n start)
  unfolding parts_from
  parts_from-Tiles zero start le enough = omega arith
  parts_from-Tiles (suc fuel) start le enough = elim (dec_lt start total) [
    | no h ↦ rw (parts_from, le→ltb_false start total (omega arith)) (omega arith)
    | yes h ↦
        rw (parts_from, lt→ltb start total h)
          (
            refl,
            omega arith,
            omega (arith, mul-le-mul_right {m = min (total - start) n} {n = n} bytes (omega arith)),
            parts_from-Tiles fuel (start + min (total - start) n) (omega arith) (omega arith),
          )
  ]

  -- The number of parts is between two bounds that leave one number.
  parts_from-length :
      (fuel start : ℕ)
      → start ≤ total
      → total ≤ start + fuel
      → (total ≤ start + length (parts_from fuel total n start) * n)
        × (length (parts_from fuel total n start) * n < total - start + n)
        × (start ≡ total → length (parts_from fuel total n start) ≡ 0)
  unfolding parts_from
  parts_from-length zero start le enough = (omega arith, omega arith, λ _. refl)
  parts_from-length (suc fuel) start le enough = elim (dec_lt start total) [
    | no h ↦
        rw (parts_from, le→ltb_false start total (omega arith))
          (omega arith, omega arith, λ _. refl)
    | yes h ↦
        let rest =
          parts_from-length fuel (start + min (total - start) n) (omega arith) (omega arith) in
        rw (parts_from, lt→ltb start total h)
          (
            omega (arith, rest),
            last (length (parts_from fuel total n (start + min (total - start) n))) start h rest,
            λ e. absurd (omega arith),
          )
  ]
    where
      last :
          (k start : ℕ)
          → start < total
          → (total ≤ start + min (total - start) n + k * n)
            × (k * n < total - (start + min (total - start) n) + n)
            × (start + min (total - start) n ≡ total → k ≡ 0)
          → suc k * n < total - start + n
      last k start h rest = elim (dec_lt n (total - start)) [
        | yes more ↦ omega (arith, rest)
        | no done ↦ let e : k ≡ 0 = rest.2 (omega arith) in omega (arith, ap (λ t. t * n) e)
      ]

  parts_from-count : length (parts_from total total n 0) ≡ div_ceil total n
  parts_from-count =
      let bounds = parts_from-length total 0 (omega arith) (omega arith) in
      let k = length (parts_from total total n 0) in
      let most = div_ceil-mul_lt total n some_frames in
      let least = div_ceil-le_mul total n some_frames in
      omega (
        arith,
        lt_of_mul-lt-mul_right n {m = k} {n = suc (div_ceil total n)}
            (omega (arith, bounds, least)),
        lt_of_mul-lt-mul_right n {m = div_ceil total n} {n = suc k} (omega (arith, bounds, most)),
      )

-- The parts of a channel, where they are given, tile its frames in order, each in a file within the
-- split limit, and they are as many as `wav_part_count` says.
pub wav_parts-Tiles :
    (total bytes limit : ℕ) {ps : List WavPart}
    → wav_parts_for_channel total bytes limit ≡ ok ps
    → Tiles bytes limit 0 total ps × (wav_part_count total bytes limit ≡ ok (length ps))
unfolding wav_parts_for_channel wav_part_count
wav_parts-Tiles total bytes limit h =
    let (n, given, e) = >>=-eq-ok (wav_frames_per_part bytes limit) _ h in
    let (some_frames, fits, _) = frames_per_part_lem bytes limit given in
    let same = ok-injective e in
    (
      subst (Tiles bytes limit 0 total) same (
          parts_from-Tiles bytes limit total n some_frames fits total 0 (omega arith)
            (omega arith)),
      rw given
          (ap ok (sym (parts_from-count bytes limit total n some_frames fits) ∙ ap length same)),
    )

-- Parts are given exactly where a frame has bytes and the limit leaves room for one.
pub wav_parts_total :
    (total bytes limit : ℕ)
    → ((0 < bytes) × (wav_header_bytes + bytes ≤ limit))
      ↔ ((ps : List WavPart) × (wav_parts_for_channel total bytes limit ≡ ok ps))
unfolding wav_parts_for_channel
wav_parts_total total bytes limit = (given, needed)
  where
    given :
        (0 < bytes) × (wav_header_bytes + bytes ≤ limit)
        → (ps : List WavPart) × (wav_parts_for_channel total bytes limit ≡ ok ps)
    given h =
        let (n, e) = frames_per_part-given bytes limit h.0 h.1 in (parts_from total total n 0, rw e)

    needed :
        (ps : List WavPart) × (wav_parts_for_channel total bytes limit ≡ ok ps)
        → (0 < bytes) × (wav_header_bytes + bytes ≤ limit)
    needed (ps, h) =
        let (n, e, _) = >>=-eq-ok (wav_frames_per_part bytes limit) _ h in
        frames_per_part-needs bytes limit e

-- For a `u32` sample rate, a derived chunk length is never zero; it is the requested one, or a
-- quarter of a second at most (a frame, for a sample rate below 4).
pub chunk_frames_lem :
    (sample_rate : ℕ) (requested : Option ℕ) {frames : ℕ}
    → sample_rate ≤ u32_max
    → derive_chunk_frames sample_rate requested ≡ ok frames
    → (0 < frames) × ((requested ≡ some frames) ⊎ (frames * 4 ≤ max sample_rate 4))
unfolding derive_chunk_frames
chunk_frames_lem sample_rate requested small h = ground arith
