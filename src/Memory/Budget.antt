-- ===== src/Memory/Budget.antt =====
-- What an allocation budget guarantees.
use native.Mathlib.Nat.{mul-mod_left, mul-le-mul_left}
use last_audio_memory_buffer.Base.{
  ℕ, ◌+◌, ◌%◌, ◌<◌, ◌≤◌, ◌≡◌, ◌∙◌, ap, arith, u64_mod, checked_add, checked_mul, checked_sub,
  div_ceil, div_ceil-le_mul, div_ceil-mul_lt, String, ◌*◌,
}
use last_audio_memory_buffer.Base.Error.{Result, ok, ok_or, LambError, >>=-eq-ok}
use last_audio_memory_buffer.Memory.{
  RingMetadataBudget, ring_metadata_budget, total, ring_chunk_object_reserve_bytes,
  ring_fixed_metadata_reserve_bytes, allocation_budget_bytes, add_or, mul_or,
  allocator_header_reserve_bytes,
}

add_or-eq_ok :
    (context : String) (a b : ℕ) {c : ℕ}
    → add_or context a b ≡ ok c
    → (c ≡ a + b) × (a + b < u64_mod)
unfolding add_or checked_add
add_or-eq_ok context a b h = ground arith

mul_or-eq_ok :
    (context : String) (a b : ℕ) {c : ℕ}
    → mul_or context a b ≡ ok c
    → (c ≡ a * b) × (a * b < u64_mod)
unfolding mul_or checked_mul
mul_or-eq_ok context a b h = ground arith

checked_sub-eq_ok : (a b : ℕ) (e : LambError) {c : ℕ} → ok_or (checked_sub a b) e ≡ ok c → a ≡ b + c
unfolding checked_sub
checked_sub-eq_ok a b e h = ground arith

fields :
    (padding objects index fixed_bytes : ℕ) {budget : RingMetadataBudget}
    → ◌≡◌ {A = Result RingMetadataBudget}
        (ok (record {
          sample_allocator_padding = padding;
          chunk_objects = objects;
          chunk_index = index;
          fixed = fixed_bytes;
        }))
        (ok budget)
    → (padding ≡ budget.sample_allocator_padding)
      × (objects ≡ budget.chunk_objects)
      × (index ≡ budget.chunk_index)
      × (fixed_bytes ≡ budget.fixed)
fields padding objects index fixed_bytes e = ground arith

module _ (page_size : ℕ) (some_page : 0 < page_size) where
  -- For a positive page size, a budget is the payload and the allocator's header, rounded up to
  -- whole pages: a multiple of the page size, at least what is asked for, and less than a page
  -- more.
  pub allocation_budget_lem :
      (payload_bytes : ℕ) {budget : ℕ}
      → allocation_budget_bytes page_size payload_bytes ≡ ok budget
      → (budget % page_size ≡ 0)
        × (payload_bytes + allocator_header_reserve_bytes ≤ budget)
        × (budget < payload_bytes + allocator_header_reserve_bytes + page_size)
  unfolding allocation_budget_bytes
  allocation_budget_lem payload_bytes {budget} h =
      let (reserved, added, h') = >>=-eq-ok _ _ h in
      let sum = add_or-eq_ok _ payload_bytes allocator_header_reserve_bytes added in
      let product = mul_or-eq_ok _ (div_ceil reserved page_size) page_size h' in
      (
        ap (λ t. t % page_size) product.0 ∙ mul-mod_left (div_ceil reserved page_size) page_size,
        omega (arith, sum, product, div_ceil-le_mul reserved page_size some_page),
        omega (arith, sum, product, div_ceil-mul_lt reserved page_size some_page),
      )

  -- For a positive page size, a ring's metadata budget, if it is given, covers for each chunk its
  -- object, its place in the index and the header of its sample allocation, and the ring's own
  -- metadata.
  pub ring_metadata_budget_lem :
      (count bytes : ℕ) {budget : RingMetadataBudget} {sum : ℕ}
      → ring_metadata_budget page_size count bytes ≡ ok budget
      → total budget ≡ ok sum
      → count * allocator_header_reserve_bytes
          + count * (ring_chunk_object_reserve_bytes + allocator_header_reserve_bytes)
          + (count * 8 + allocator_header_reserve_bytes)
          + (ring_fixed_metadata_reserve_bytes + allocator_header_reserve_bytes)
        ≤ sum
  unfolding ring_metadata_budget total
  ring_metadata_budget_lem count bytes {budget} {sum} h t =
      let (object_allocation, h1, k1) =
        >>=-eq-ok (allocation_budget_bytes page_size ring_chunk_object_reserve_bytes) _ h in
      let (objects, h2, k2) = >>=-eq-ok (mul_or _ count object_allocation) _ k1 in
      let (index_payload, h3, k3) = >>=-eq-ok (mul_or _ count 8) _ k2 in
      let (sample_allocation, h4, k4) = >>=-eq-ok (allocation_budget_bytes page_size bytes) _ k3 in
      let (padding, h5, k5) = >>=-eq-ok (ok_or (checked_sub sample_allocation bytes) _) _ k4 in
      let (all_padding, h6, k6) = >>=-eq-ok (mul_or _ count padding) _ k5 in
      let (index, h7, k7) = >>=-eq-ok (allocation_budget_bytes page_size index_payload) _ k6 in
      let (fixed_bytes, h8, k8) =
        >>=-eq-ok (allocation_budget_bytes page_size ring_fixed_metadata_reserve_bytes) _ k7 in
      let (with_objects, t1, t') =
        >>=-eq-ok (add_or _ budget.sample_allocator_padding budget.chunk_objects) _ t in
      let (with_index, t2, t3) = >>=-eq-ok (add_or _ with_objects budget.chunk_index) _ t' in
      omega (
        arith,
        fields all_padding objects index fixed_bytes k8,
        add_or-eq_ok _ budget.sample_allocator_padding budget.chunk_objects t1,
        add_or-eq_ok _ with_objects budget.chunk_index t2,
        add_or-eq_ok _ with_index budget.fixed t3,
        mul_or-eq_ok _ count object_allocation h2,
        mul_or-eq_ok _ count 8 h3,
        mul_or-eq_ok _ count padding h6,
        mul-le-mul_left count (allocation_budget_lem ring_chunk_object_reserve_bytes h1).1,
        mul-le-mul_left {m = allocator_header_reserve_bytes} {n = padding} count (
            omega (
              arith,
              allocation_budget_lem bytes h4,
              checked_sub-eq_ok sample_allocation bytes _ h5,
            )),
        allocation_budget_lem index_payload h7,
        allocation_budget_lem ring_fixed_metadata_reserve_bytes h8,
      )
