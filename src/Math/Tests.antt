-- ===== src/Math/Tests.antt =====
-- A hundred stereo frames in files of at most 244 bytes.
use last_audio_memory_buffer.Base.{◌+◌, ◌≤◌, ◌<◌, ◌≡◌, ◌↔◌, refl, List, [], ◌∷◌, none}
use last_audio_memory_buffer.Base.Error.{ok}
use last_audio_memory_buffer.Math.{
  WavPart, wav_header_bytes, derive_chunk_frames, wav_parts_for_channel, wav_part_count,
  wav_frames_per_part,
}
use last_audio_memory_buffer.Math.Parts.{Tiles, wav_parts-Tiles, wav_parts_total}

abbrev parts : List WavPart
parts =
    record { start_frame = 0; frame_count = 50 }
    ∷ record { start_frame = 50; frame_count = 50 }
    ∷ []

hundred_parts : wav_parts_for_channel 100 4 244 ≡ ok parts
unfolding wav_parts_for_channel wav_frames_per_part
hundred_parts = refl

wav_parts-Tiles_example : Tiles 4 244 0 100 parts × (wav_part_count 100 4 244 ≡ ok 2)
wav_parts-Tiles_example = wav_parts-Tiles 100 4 244 hundred_parts

wav_parts_total_example :
    ((0 < 4) × (wav_header_bytes + 4 ≤ 244))
    ↔ ((ps : List WavPart) × (wav_parts_for_channel 100 4 244 ≡ ok ps))
wav_parts_total_example = wav_parts_total 100 4 244

derived : derive_chunk_frames 48000 none ≡ ok 12000
unfolding derive_chunk_frames
derived = refl
