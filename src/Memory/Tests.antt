-- ===== src/Memory/Tests.antt =====
-- Budgets for pages of 4096 bytes.
use last_audio_memory_buffer.Base.{
  ◌+◌, ◌*◌, ◌≤◌, ◌≡◌, refl, arith, checked_add, checked_mul, checked_sub, div_ceil,
}
use last_audio_memory_buffer.Base.Error.{ok}
use last_audio_memory_buffer.Memory.{
  allocation_budget_bytes, allocator_header_reserve_bytes, ring_chunk_object_reserve_bytes,
  ring_fixed_metadata_reserve_bytes, RingMetadataBudget, ring_metadata_budget, total,
}
use last_audio_memory_buffer.Memory.Budget.{ring_metadata_budget_lem}

one_page : allocation_budget_bytes 4096 1000 ≡ ok 4096
unfolding allocation_budget_bytes checked_add checked_mul div_ceil
one_page = refl

abbrev budget : RingMetadataBudget
budget = record {
  sample_allocator_padding = 12240;
  chunk_objects = 12288;
  chunk_index = 4096;
  fixed = 4096;
}

three_chunks : ring_metadata_budget 4096 3 16 ≡ ok budget
unfolding ring_metadata_budget checked_add checked_mul checked_sub div_ceil
three_chunks = refl

three_total : total budget ≡ ok 32720
unfolding total checked_add
three_total = refl

ring_metadata_budget_example :
    3 * allocator_header_reserve_bytes
      + 3 * (ring_chunk_object_reserve_bytes + allocator_header_reserve_bytes)
      + (3 * 8 + allocator_header_reserve_bytes)
      + (ring_fixed_metadata_reserve_bytes + allocator_header_reserve_bytes)
    ≤ 32720
ring_metadata_budget_example =
    ring_metadata_budget_lem 4096 (omega arith) 3 16 three_chunks three_total
