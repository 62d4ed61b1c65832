-- ===== src/Ring/New.antt =====
-- `SampleRing::new` of sample_ring.rs, with `MaterializedBuffer::new_zeroed` and
-- `ExactArray::try_from_fn` of memory_plan.rs as it calls them. Whether an allocation succeeds is
-- the allocator's choice, an argument; touching the pages of a buffer changes no sample.
use last_audio_memory_buffer.Base.{
  ℕ, zero, suc, ◌+◌, ◌*◌, List, [], ◌∷◌, Bool, none, ltb, ◌==◌, not, replicate, checked_add,
  checked_mul, length,
}
use last_audio_memory_buffer.Base.Error.{Result, ok, validation, ◌>>=◌, ◌>>◌, require, ok_or}
use last_audio_memory_buffer.Memory.{ring_metadata_budget, total}
use last_audio_memory_buffer.Ring.{RingConfig, Chunk, SampleRing, writable}

-- `isize::MAX`, the limit on an allocation's bytes.
abbrev pub isize_max : ℕ
isize_max = 9223372036854775807

-- `MaterializedBuffer::<f32>::new_zeroed`; `granted` is the allocator's answer.
unfoldable pub new_zeroed : Bool → ℕ → Result (List ℕ)
new_zeroed granted len = do
  require (not (ltb isize_max (len * 4))) (validation "materialized buffer layout overflow")
  require granted (validation "unable to allocate materialized buffer")
  ok (replicate len 0)

-- A chunk before its first use.
abbrev pub fresh_chunk : List ℕ → Chunk
fresh_chunk buf = record {
  sequence = 0;
  state = writable;
  pin_count = 0;
  valid_start_frame = 0;
  valid_frame_count = 0;
  buf = buf;
}

-- The initialisation of the chunks from index `i` on, and the sample bytes allocated for all.
unfoldable pub new_chunks : (ℕ → Bool) → ℕ → ℕ → ℕ → ℕ → Result (List Chunk × ℕ)
unfolding new_zeroed
new_chunks grants samples_per_chunk zero i bytes = ok ([], bytes)
new_chunks grants samples_per_chunk (suc n) i bytes = do
  buf ← new_zeroed (grants i) samples_per_chunk
  bytes' ←
      ok_or (checked_add bytes (samples_per_chunk * 4))
        (validation "ring sample byte count overflow")
  (chunks, all_bytes) ← new_chunks grants samples_per_chunk n (i + 1) bytes'
  ok (fresh_chunk buf ∷ chunks, all_bytes)

-- `new`: the ring, its allocated sample bytes and its metadata budget. `grants_index` and `grants`
-- are the allocator's answers for the index of chunks and for each chunk's samples.
unfoldable pub new : ℕ → Bool → (ℕ → Bool) → RingConfig → Result (SampleRing × ℕ × ℕ)
new page_size grants_index grants cfg = do
  require (not (cfg.channels == 0)) (validation "channels must be > 0")
  require (not (cfg.sample_rate == 0)) (validation "sample_rate must be > 0")
  require (not (cfg.chunk_frames == 0)) (validation "chunk_frames must be > 0")
  require (not (cfg.chunk_count == 0)) (validation "chunk_count must be > 0")
  require (not (cfg.max_active_snapshots == 0)) (validation "max_active_snapshots must be > 0")
  samples_per_chunk ←
      ok_or (checked_mul cfg.chunk_frames cfg.channels)
        (validation "chunk allocation size overflow")
  require grants_index (validation "unable to allocate exact array")
  (chunks, sample_bytes) ← new_chunks grants samples_per_chunk cfg.chunk_count 0 0
  chunk_bytes ←
      ok_or (checked_mul samples_per_chunk 4) (validation "ring chunk sample byte count overflow")
  budget ← ring_metadata_budget page_size (length chunks) chunk_bytes
  metadata_bytes ← total budget
  ok (
    record {
      cfg = cfg;
      chunks = chunks;
      write_chunk = 0;
      global_write_frame = 0;
      clear_after_frame = 0;
      next_sequence = 1;
      dropped_frames = 0;
      active_snapshots = 0;
      last_overrun = none;
    },
    sample_bytes,
    metadata_bytes,
  )
