-- ===== src/Ring/Oldest.antt =====
-- The oldest frame that the ring retains, and the blocks that hold the retained frames.
use native.Mathlib.Decide.{dec_lt, ℕ_discrete}
use native.Mathlib.Nat.{mul-le-mul_right, div-add-mod', mod-lt}
use last_audio_memory_buffer.Base.{
  ℕ, zero, suc, ◌+◌, ◌-◌, ◌*◌, ◌%◌, ◌/◌, ◌<◌, ◌≤◌, ◌≡◌, ◌∙◌, refl, ap, subst, max, List, some,
  arith, get_elem?, add_u64, add_u64_lem, div_ceil, div_ceil-le_mul, div_ceil-mul_lt, lt→leb_false,
  ne→==_false, ◌≢◌, ap₂, le→ltb_false,
}
use last_audio_memory_buffer.Ring.{Chunk, SampleRing, published}
use last_audio_memory_buffer.Ring.Copy.{chunk_index, oldest_walk, oldest_frame, status}
use last_audio_memory_buffer.Ring.Blocks.{block-le, div_of_block}
use last_audio_memory_buffer.Ring.Holds.{Holds, Block}

-- One turn of the walk over a published chunk that `oldest` lies past the start of.
oldest_walk_step :
    (n : ℕ) (r : SampleRing) (x : ℕ) (c : Chunk)
    → x ≢ 0
    → get_elem? r.chunks (chunk_index r (x - 1)) ≡ some c
    → c.state ≡ published
    → c.valid_start_frame < x
    → x ≤ add_u64 c.valid_start_frame c.valid_frame_count
    → oldest_walk (suc n) r x ≡ oldest_walk n r c.valid_start_frame
unfolding oldest_walk
oldest_walk_step n r x c nonzero found state past within = rw (
  oldest_walk,
  ne→==_false x 0 nonzero,
  found,
  state,
  lt→leb_false x c.valid_start_frame past,
  le→ltb_false (add_u64 c.valid_start_frame c.valid_frame_count) x within,
)

oldest_walk_done : (r : SampleRing) (x : ℕ) → oldest_walk 0 r x ≡ x
unfolding oldest_walk
oldest_walk_done r x = refl

sub-one_mul : (b f : ℕ) → (b - 1) * f ≡ b * f - f
sub-one_mul b f = elim (ℕ_discrete b 0) [
  | yes e ↦ rw e (omega arith)
  | no ne ↦ let e : b ≡ suc (b - 1) = omega arith in omega (arith, ap (λ t. t * f) e)
]

sub_mul : (a b f : ℕ) → (a - b) * f ≡ a * f - b * f
sub_mul a b f = elim (dec_lt a b) [
  | yes h ↦
      let e : a - b ≡ 0 = omega arith in
      omega (arith, ap (λ t. t * f) e, mul-le-mul_right {m = a} {n = b} f (omega arith))
  | no h ↦ let e : a ≡ a - b + b = omega arith in omega (arith, ap (λ t. t * f) e)
]

module _ {r : SampleRing} {w : List ℕ} (v : Holds r w) where
  -- From a frame of block `k` past its start, one turn of the walk goes to the block's start.
  walk_in_block :
      (n k x : ℕ)
      → Block r w k
      → k * r.cfg.chunk_frames < x
      → x ≤ k * r.cfg.chunk_frames + r.cfg.chunk_frames
      → x ≤ r.global_write_frame
      → oldest_walk (suc n) r x ≡ oldest_walk n r (k * r.cfg.chunk_frames)
  walk_in_block n k x b past within le =
      oldest_walk_step n r x b.chunk (λ e. absurd (omega (arith, e))) found b.is_pub
        (omega (arith, b.start)) (rw ends (omega (arith, b.start, b.count)))
      ∙ ap (oldest_walk n r) b.start
    where
      index : chunk_index r (x - 1) ≡ k % r.cfg.chunk_count
      index =
          ap₂ (λ t n. t % n)
            (ap (λ t. t / r.cfg.chunk_frames) (omega arith)
              ∙ div_of_block r.cfg.chunk_frames k (x - 1 - k * r.cfg.chunk_frames) (omega arith))
            v.sized

      found : get_elem? r.chunks (chunk_index r (x - 1)) ≡ some b.chunk
      found = ap (get_elem? r.chunks) index ∙ b.found

      ends :
          add_u64 b.chunk.valid_start_frame b.chunk.valid_frame_count
          ≡ b.chunk.valid_start_frame + b.chunk.valid_frame_count
      ends =
          add_u64_lem b.chunk.valid_start_frame b.chunk.valid_frame_count
            (omega (arith, b.start, b.count, v.counted))

  oldest_walk-zero : (n : ℕ) → oldest_walk n r 0 ≡ 0
  unfolding oldest_walk
  oldest_walk-zero zero = refl
  oldest_walk-zero (suc n) = refl

  walk_blocks :
      (n b : ℕ)
      → b * r.cfg.chunk_frames ≤ r.global_write_frame
      → r.global_write_frame ≤ (b - n + r.cfg.chunk_count) * r.cfg.chunk_frames
      → oldest_walk n r (b * r.cfg.chunk_frames) ≡ (b - n) * r.cfg.chunk_frames
  walk_blocks n zero le near =
      let e : 0 - n ≡ 0 = omega arith in
      ap (oldest_walk n r) (omega arith)
      ∙ oldest_walk-zero n
      ∙ omega (arith, ap (λ t. t * r.cfg.chunk_frames) e)
  walk_blocks zero (suc b) le near =
      oldest_walk_done r (suc b * r.cfg.chunk_frames)
      ∙ ap (λ t. t * r.cfg.chunk_frames) (omega arith)
  walk_blocks (suc n) (suc b) le near =
      walk_in_block n b (suc b * r.cfg.chunk_frames)
        (v.block b (omega (arith, v.valid.some_frames)) (
          omega (
            arith,
            mul-le-mul_right {m = suc b - suc n + r.cfg.chunk_count} {n = b + r.cfg.chunk_count}
                r.cfg.chunk_frames (omega arith),
          )))
        (omega (arith, v.valid.some_frames)) (omega arith) le
      ∙ walk_blocks n b (omega arith) (
          subst (λ t. r.global_write_frame ≤ (t + r.cfg.chunk_count) * r.cfg.chunk_frames)
            (omega arith) near)
      ∙ ap (λ t. t * r.cfg.chunk_frames) (omega arith)

  -- The number of blocks that the recording has begun.
  abbrev pub blocks : ℕ
  blocks = div_ceil r.global_write_frame r.cfg.chunk_frames

  blocks_past : r.global_write_frame ≤ blocks * r.cfg.chunk_frames
  blocks_past = div_ceil-le_mul r.global_write_frame r.cfg.chunk_frames v.valid.some_frames

  blocks_begun : blocks * r.cfg.chunk_frames < r.global_write_frame + r.cfg.chunk_frames
  blocks_begun = div_ceil-mul_lt r.global_write_frame r.cfg.chunk_frames v.valid.some_frames

  walk_from_last_block :
      (b n : ℕ)
      → blocks ≡ suc b
      → r.cfg.chunk_count ≡ suc n
      → oldest_walk (suc n) r r.global_write_frame ≡ (b - n) * r.cfg.chunk_frames
  walk_from_last_block b n eb en =
      walk_in_block n b r.global_write_frame
        (v.block b begun (
          omega (
            arith,
            past,
            mul-le-mul_right {m = suc b} {n = b + r.cfg.chunk_count} r.cfg.chunk_frames
                (omega arith),
          )))
        begun past (omega arith)
      ∙ walk_blocks n b (omega (arith, begun)) (
          omega (
            arith,
            past,
            mul-le-mul_right {m = suc b} {n = b - n + r.cfg.chunk_count} r.cfg.chunk_frames
                (omega arith),
          ))
    where
      same : blocks * r.cfg.chunk_frames ≡ suc b * r.cfg.chunk_frames
      same = ap (λ t. t * r.cfg.chunk_frames) eb

      begun : b * r.cfg.chunk_frames < r.global_write_frame
      begun = omega (arith, same, blocks_begun)

      past : r.global_write_frame ≤ b * r.cfg.chunk_frames + r.cfg.chunk_frames
      past = omega (arith, same, blocks_past)

  walk_from_head :
      oldest_walk r.cfg.chunk_count r r.global_write_frame
      ≡ (blocks - r.cfg.chunk_count) * r.cfg.chunk_frames
  walk_from_head = elim (dec_lt 0 blocks) [
    | yes h ↦
        ap (λ n. oldest_walk n r r.global_write_frame) (omega (arith, v.valid.some_chunks))
        ∙ walk_from_last_block (blocks - 1) (r.cfg.chunk_count - 1) (omega arith)
            (omega (arith, v.valid.some_chunks))
        ∙ ap (λ t. t * r.cfg.chunk_frames) (omega (arith, v.valid.some_chunks))
    | no h ↦
        let none_begun : blocks ≡ 0 = omega arith in
        let empty : blocks - r.cfg.chunk_count ≡ 0 = omega arith in
        ap (oldest_walk r.cfg.chunk_count r)
          (omega (arith, blocks_past, ap (λ t. t * r.cfg.chunk_frames) none_begun))
        ∙ oldest_walk-zero r.cfg.chunk_count
        ∙ omega (arith, ap (λ t. t * r.cfg.chunk_frames) empty)
  ]

  pub first_block-le_head : (blocks - r.cfg.chunk_count) * r.cfg.chunk_frames ≤ r.global_write_frame
  first_block-le_head = omega (
    arith,
    blocks_begun,
    mul-le-mul_right {m = blocks - r.cfg.chunk_count} {n = blocks - 1} r.cfg.chunk_frames
        (omega (arith, v.valid.some_chunks)),
    sub-one_mul blocks r.cfg.chunk_frames,
  )

  window :
      r.global_write_frame
      ≤ (blocks - r.cfg.chunk_count) * r.cfg.chunk_frames + r.cfg.chunk_frames * r.cfg.chunk_count
  window = omega (
    arith,
    blocks_past,
    mul-le-mul_right {m = blocks} {n = blocks - r.cfg.chunk_count + r.cfg.chunk_count}
        r.cfg.chunk_frames (omega arith),
  )

  -- The oldest frame is the start of the oldest block that is still in the ring, or where the ring
  -- was last cleared if that is later.
  pub oldest_frame_lem :
      oldest_frame r
      ≡ max
          ((div_ceil r.global_write_frame r.cfg.chunk_frames - r.cfg.chunk_count)
            * r.cfg.chunk_frames)
          r.clear_after_frame
  unfolding oldest_frame
  oldest_frame_lem =
      ap (λ t. max t r.clear_after_frame)
        (ap (λ n. oldest_walk n r r.global_write_frame) v.sized ∙ walk_from_head)

  -- A frame is retained if the ring was not cleared after it, and a full ring holds it with a chunk
  -- to spare.
  pub oldest-le :
      (x : ℕ)
      → r.clear_after_frame ≤ x
      → r.global_write_frame + r.cfg.chunk_frames ≤ x + r.cfg.chunk_frames * r.cfg.chunk_count
      → oldest_frame r ≤ x
  oldest-le x clear fits =
      omega
        (arith, oldest_frame_lem, blocks_begun, sub_mul blocks r.cfg.chunk_count r.cfg.chunk_frames)

  -- The retained frames never exceed the capacity, and they end at the head.
  pub status_within :
      ((status r).retained_frames ≤ (status r).capacity_frames)
      × (oldest_frame r + (status r).retained_frames ≡ r.global_write_frame)
  unfolding status oldest_frame
  status_within = (
    omega (arith, oldest_frame_lem, window),
    omega (arith, oldest_frame_lem, first_block-le_head, v.cleared),
  )

  -- The block of a retained frame is in the ring.
  pub retained_block :
      (x : ℕ) → oldest_frame r ≤ x → x < r.global_write_frame → Block r w (x / r.cfg.chunk_frames)
  retained_block x old recent =
      v.block (x / r.cfg.chunk_frames) (omega (arith, div-add-mod' x r.cfg.chunk_frames)) (
        omega (
          arith,
          blocks_past,
          mul-le-mul_right {m = blocks} {n = x / r.cfg.chunk_frames + r.cfg.chunk_count}
              r.cfg.chunk_frames (omega (arith, first)),
        ))
    where
      first : blocks - r.cfg.chunk_count ≤ x / r.cfg.chunk_frames
      first =
          block-le r.cfg.chunk_frames (x + 1) (blocks - r.cfg.chunk_count) (x / r.cfg.chunk_frames)
            (omega (arith, oldest_frame_lem, old))
            (omega (arith, div-add-mod' x r.cfg.chunk_frames, mod-lt x v.valid.some_frames))
