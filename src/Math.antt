-- ===== src/Math.antt =====
-- src/math.rs: frame and byte arithmetic of chunks and WAV parts. (`estimate_ring_bytes` computes
-- with floats and is not modelled.)
pub mod Parts
mod Tests
use last_audio_memory_buffer.Base.{
  ℕ, zero, suc, ◌+◌, ◌-◌, ◌*◌, ◌/◌, min, max, List, [], ◌∷◌, Option, none, some, true, false, ltb,
  leb, ◌==◌, if◌then◌else◌, checked_mul, div_ceil, u32_mod, ◌%◌,
}
use last_audio_memory_buffer.Base.Error.{Result, ok, err, validation, ◌>>=◌, ok_or}

-- `WAV_HEADER_BYTES`
abbrev pub wav_header_bytes : ℕ
wav_header_bytes = 44

-- `WavPart`
pub record WavPart : Type 0 where
  pub start_frame : ℕ
  pub frame_count : ℕ

-- `derive_chunk_frames`; the last cast to `u32` keeps the low 32 bits.
unfoldable pub derive_chunk_frames : ℕ → Option ℕ → Result ℕ
derive_chunk_frames sample_rate requested =
    if sample_rate == 0 then err (validation "sampleRate must be > 0") else elim requested [
      | some frames ↦ if frames == 0 then err (validation "chunkFrames must be > 0") else ok frames
      | none ↦ ok (max (sample_rate * 250 / 1000) 1 % u32_mod)
    ]

-- `descriptor_count`
unfoldable pub descriptor_count : ℕ → ℕ → ℕ → Result ℕ
descriptor_count seconds sample_rate chunk_frames =
    if chunk_frames == 0 then err (validation "chunkFrames must be > 0") else do
      frames ←
          ok_or (checked_mul seconds sample_rate) (validation "descriptor frame count overflow")
      ok (div_ceil frames chunk_frames)

-- `wav_frames_per_part`
unfoldable pub wav_frames_per_part : ℕ → ℕ → Result ℕ
wav_frames_per_part bytes_per_frame split_when_over_bytes =
    if bytes_per_frame == 0
    then err (validation "bytes_per_frame must be > 0")
    else if leb split_when_over_bytes wav_header_bytes
    then err (validation "splitWhenOverBytes must leave room for WAV data")
    else let frames_per_part = (split_when_over_bytes - wav_header_bytes) / bytes_per_frame in
      if frames_per_part == 0
      then err (validation "splitWhenOverBytes is too small for one frame")
      else ok frames_per_part

-- The loop of `wav_parts_for_channel`, on fuel: a part has a frame at least.
unfoldable pub parts_from : ℕ → ℕ → ℕ → ℕ → List WavPart
parts_from zero total_frames frames_per_part start = []
parts_from (suc fuel) total_frames frames_per_part start = elim (ltb start total_frames) [
  | false ↦ []
  | true ↦
      let count = min (total_frames - start) frames_per_part in
      record { start_frame = start; frame_count = count }
      ∷ parts_from fuel total_frames frames_per_part (start + count)
]

unfoldable pub wav_parts_for_channel : ℕ → ℕ → ℕ → Result (List WavPart)
unfolding parts_from
wav_parts_for_channel total_frames bytes_per_frame split_when_over_bytes = do
  frames_per_part ← wav_frames_per_part bytes_per_frame split_when_over_bytes
  ok (parts_from total_frames total_frames frames_per_part 0)

unfoldable pub wav_part_count : ℕ → ℕ → ℕ → Result ℕ
wav_part_count total_frames bytes_per_frame split_when_over_bytes = do
  frames_per_part ← wav_frames_per_part bytes_per_frame split_when_over_bytes
  ok (div_ceil total_frames frames_per_part)
