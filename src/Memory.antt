-- ===== src/Memory.antt =====
-- src/memory_plan.rs: the byte budgets that are rounded to pages. `system_page_size` asks the
-- operating system, so the page size is an argument.
pub mod Budget
mod Tests
use last_audio_memory_buffer.Base.{
  ℕ, ◌+◌, ◌*◌, Option, checked_add, checked_mul, checked_sub, div_ceil, String,
}
use last_audio_memory_buffer.Base.Error.{Result, ok, ◌>>=◌, ok_or, validation}

-- `ALLOCATOR_HEADER_RESERVE_BYTES`
abbrev pub allocator_header_reserve_bytes : ℕ
allocator_header_reserve_bytes = 64

-- `RING_CHUNK_OBJECT_RESERVE_BYTES`
abbrev pub ring_chunk_object_reserve_bytes : ℕ
ring_chunk_object_reserve_bytes = 512

-- `RING_FIXED_METADATA_RESERVE_BYTES`
abbrev pub ring_fixed_metadata_reserve_bytes : ℕ
ring_fixed_metadata_reserve_bytes = 512

-- `checked_add` and `checked_mul` of memory_plan.rs, with the error's text first.
unfoldable pub add_or : String → ℕ → ℕ → Result ℕ
add_or context left right = ok_or (checked_add left right) (validation context)

unfoldable pub mul_or : String → ℕ → ℕ → Result ℕ
mul_or context left right = ok_or (checked_mul left right) (validation context)

-- `RingMetadataBudget`
pub record RingMetadataBudget : Type 0 where
  pub sample_allocator_padding : ℕ
  pub chunk_objects : ℕ
  pub chunk_index : ℕ
  pub fixed : ℕ

-- `RingMetadataBudget::total`
unfoldable pub total : RingMetadataBudget → Result ℕ
unfolding add_or
total b = do
  objects ← add_or "ring metadata budget overflow" b.sample_allocator_padding b.chunk_objects
  indexed ← add_or "ring metadata budget overflow" objects b.chunk_index
  add_or "ring metadata budget overflow" indexed b.fixed

module _ (page_size : ℕ) where
  unfoldable pub allocation_budget_bytes : ℕ → Result ℕ
  unfolding add_or mul_or
  allocation_budget_bytes payload_bytes = do
    reserved ← add_or "allocation reserve overflow" payload_bytes allocator_header_reserve_bytes
    mul_or "page-rounded allocation budget overflow" (div_ceil reserved page_size) page_size

  unfoldable pub ring_metadata_budget : ℕ → ℕ → Result RingMetadataBudget
  unfolding allocation_budget_bytes mul_or
  ring_metadata_budget chunk_object_count chunk_sample_bytes = do
    chunk_object_allocation ← allocation_budget_bytes ring_chunk_object_reserve_bytes
    objects ← mul_or "ring chunk object budget overflow" chunk_object_count chunk_object_allocation
    index_payload ← mul_or "ring chunk index payload overflow" chunk_object_count 8
    sample_allocation ← allocation_budget_bytes chunk_sample_bytes
    padding ←
        ok_or (checked_sub sample_allocation chunk_sample_bytes)
          (validation "ring sample allocator padding underflow")
    all_padding ← mul_or "ring sample allocator padding overflow" chunk_object_count padding
    index ← allocation_budget_bytes index_payload
    fixed_bytes ← allocation_budget_bytes ring_fixed_metadata_reserve_bytes
    ok (record {
      sample_allocator_padding = all_padding;
      chunk_objects = objects;
      chunk_index = index;
      fixed = fixed_bytes;
    })
