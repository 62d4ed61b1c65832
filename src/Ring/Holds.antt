-- ===== src/Ring/Holds.antt =====
-- The representation invariant of the ring: which frames of the recording each chunk holds.
use last_audio_memory_buffer.Base.{
  ℕ, ◌+◌, ◌-◌, ◌*◌, ◌%◌, ◌/◌, ◌<◌, ◌≤◌, ◌≡◌, min, List, some, length, get_elem?, take, slice,
  u32_max, u64_mod,
}
use last_audio_memory_buffer.Ring.{RingConfig, Chunk, SampleRing, published, writable}

-- The limits on a configuration that `new` and the field types give.
pub record IsValid (cfg : RingConfig) : Type 0 where
  pub some_channels : 0 < cfg.channels
  pub some_frames : 0 < cfg.chunk_frames
  pub some_chunks : 0 < cfg.chunk_count
  pub channels_u32 : cfg.channels ≤ u32_max
  pub frames_u32 : cfg.chunk_frames ≤ u32_max

-- Chunk `k % chunk_count` is published with block `k` of the recording `w`, as far as the head.
pub record Block (r : SampleRing) (w : List ℕ) (k : ℕ) : Type 0 where
  pub chunk : Chunk
  pub found : get_elem? r.chunks (k % r.cfg.chunk_count) ≡ some chunk
  pub is_pub : chunk.state ≡ published
  pub start : chunk.valid_start_frame ≡ k * r.cfg.chunk_frames
  pub count :
      chunk.valid_frame_count
      ≡ min r.cfg.chunk_frames (r.global_write_frame - k * r.cfg.chunk_frames)
  pub frames :
      take (chunk.valid_frame_count * r.cfg.channels) chunk.buf
      ≡ slice w (k * r.cfg.chunk_frames * r.cfg.channels) (chunk.valid_frame_count * r.cfg.channels)

-- Chunk `i` has not been written yet.
pub record IsBlank (r : SampleRing) (i : ℕ) : Type 0 where
  pub chunk : Chunk
  pub found : get_elem? r.chunks i ≡ some chunk
  pub is_writable : chunk.state ≡ writable

-- The ring has recorded the samples `w` since it was made or reset: it holds the last
-- `chunk_count` blocks of them, the last one partly, and nothing else.
pub record Holds (r : SampleRing) (w : List ℕ) : Type 0 where
  pub valid : IsValid r.cfg
  pub sized : length r.chunks ≡ r.cfg.chunk_count
  pub recorded : length w ≡ r.global_write_frame * r.cfg.channels
  pub counted : r.global_write_frame < u64_mod
  pub cleared : r.clear_after_frame ≤ r.global_write_frame
  pub write_index : r.write_chunk ≡ r.global_write_frame / r.cfg.chunk_frames % r.cfg.chunk_count
  pub lengths :
      (i : ℕ) (c : Chunk)
      → get_elem? r.chunks i ≡ some c
      → length c.buf ≡ r.cfg.chunk_frames * r.cfg.channels
  pub block :
      (k : ℕ)
      → k * r.cfg.chunk_frames < r.global_write_frame
      → r.global_write_frame ≤ (k + r.cfg.chunk_count) * r.cfg.chunk_frames
      → Block r w k
  pub blank :
      (i : ℕ) → i < r.cfg.chunk_count → r.global_write_frame ≤ i * r.cfg.chunk_frames → IsBlank r i
