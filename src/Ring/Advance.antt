-- ===== src/Ring/Advance.antt =====
-- Publishing frames in the chunk at the head extends the recording that the ring holds by them.
use native.Mathlib.Decide.{dec_lt, ℕ_discrete}
use native.Mathlib.Nat.{mod-eq_of_lt, mul-le-mul_right, lt_of_mul-lt-mul_right}
use last_audio_memory_buffer.Base.{
  ℕ, ◌+◌, ◌*◌, ◌%◌, ◌/◌, ◌<◌, ◌≤◌, ◌≡◌, ◌≢◌, ◌++◌, ◌∙◌, refl, sym, ap, ap₂, Option, none, le→leb,
  lt→leb_false, subst, List, some, arith, length, get_elem?, take, drop, slice, slice-append,
  slice-++, slice-append_right, slice-zero, take-all, take-splice, length-splice, length-append,
  get_elem?-set_self, get_elem?-set_ne, get_elem?-lt, length-set, u64_mod, add_u32, add_u32_lem,
}
use last_audio_memory_buffer.Ring.{Chunk, SampleRing, published}
use last_audio_memory_buffer.Ring.Write.{open_chunk, publish}
use last_audio_memory_buffer.Ring.Blocks.{
  block-le, block_full, block_unique, next_index, div_of_block,
}
use last_audio_memory_buffer.Ring.Holds.{Holds, Block, IsBlank}

-- The samples of the chunk after the copy of `source` at frame offset `o`.
abbrev pub filled : SampleRing → Chunk → ℕ → List ℕ → List ℕ
filled r c o source =
    take (o * r.cfg.channels) c.buf ++ (source ++ drop (o * r.cfg.channels + length source) c.buf)

abbrev samples_of : Option Chunk → ℕ
samples_of none = 0
samples_of (some c) = length c.buf

-- The ring after `m` frames of `source` are published at offset `o` of chunk `c`.
abbrev pub advanced : SampleRing → Chunk → ℕ → ℕ → List ℕ → ℕ → SampleRing
advanced r c o m source next =
    publish r (open_chunk r o c) (filled r c o source) (add_u32 o m) (r.global_write_frame + m) next

-- The head is at offset `o` of block `q`, whose chunk is `c`; `m` frames of it are published.
pub record Fits (r : SampleRing) (w : List ℕ) (c : Chunk) (q o m : ℕ) (source : List ℕ)
    : Type 0 where
  pub holds : Holds r w
  pub head : r.global_write_frame ≡ q * r.cfg.chunk_frames + o
  pub offset : o < r.cfg.chunk_frames
  pub found : get_elem? r.chunks r.write_chunk ≡ some c
  pub progress : 0 < m
  pub room : o + m ≤ r.cfg.chunk_frames
  pub frames : length source ≡ m * r.cfg.channels
  pub counted : r.global_write_frame + m < u64_mod

module _ {r : SampleRing} {w : List ℕ} {c : Chunk} {q o m : ℕ} {source : List ℕ}
    (v : Fits r w c q o m source) where
  pub at_head : r.write_chunk ≡ q % r.cfg.chunk_count
  at_head =
      v.holds.write_index
      ∙ ap (λ t. t % r.cfg.chunk_count)
          (ap (λ t. t / r.cfg.chunk_frames) v.head ∙ div_of_block r.cfg.chunk_frames q o v.offset)

  -- Past offset 0 the chunk holds the block so far.
  here : 0 < o → Block r w q
  here h =
      v.holds.block q (omega (arith, v.head))
        (grind (arith, v.head, v.offset, v.holds.valid.some_chunks))

  here_chunk : (h : 0 < o) → (here h).chunk ≡ c
  here_chunk h =
      let e : some (here h).chunk ≡ some c =
        sym (here h).found ∙ ap (get_elem? r.chunks) (sym at_head) ∙ v.found in
      cc e

  past_start : 0 < o → c.valid_start_frame ≡ q * r.cfg.chunk_frames
  past_start h = ap (λ (x : Chunk). x.valid_start_frame) (sym (here_chunk h)) ∙ (here h).start

  past_count : 0 < o → c.valid_frame_count ≡ o
  past_count h =
      ap (λ (x : Chunk). x.valid_frame_count) (sym (here_chunk h))
      ∙ (here h).count
      ∙ omega (arith, v.head, v.offset)

  opened_start : (open_chunk r o c).valid_start_frame ≡ q * r.cfg.chunk_frames
  unfolding open_chunk
  opened_start = elim (dec_lt 0 o) [
    | yes h ↦ ground (arith, past_start h)
    | no h ↦ ground (arith, v.head)
  ]

  kept :
      take (o * r.cfg.channels) c.buf
      ≡ slice w (q * r.cfg.chunk_frames * r.cfg.channels) (o * r.cfg.channels)
  kept = elim (dec_lt 0 o) [
    | yes h ↦
        subst
          (λ n.
            take (n * r.cfg.channels) c.buf
            ≡ slice w (q * r.cfg.chunk_frames * r.cfg.channels) (n * r.cfg.channels))
          (past_count h)
          (subst
            (λ (x : Chunk).
              take (x.valid_frame_count * r.cfg.channels) x.buf
              ≡ slice w (q * r.cfg.chunk_frames * r.cfg.channels)
                  (x.valid_frame_count * r.cfg.channels))
            (here_chunk h) (here h).frames)
    | no h ↦
        let e : o * r.cfg.channels ≡ 0 = grind arith in
        rw e (sym (slice-zero w (q * r.cfg.chunk_frames * r.cfg.channels)))
  ]

  pub length_buf : length c.buf ≡ r.cfg.chunk_frames * r.cfg.channels
  length_buf = v.holds.lengths r.write_chunk c v.found

  pub room_samples : o * r.cfg.channels + length source ≤ length c.buf
  room_samples = omega (arith, length_buf, v.frames, mul-le-mul_right r.cfg.channels v.room)

  -- The filled chunk holds block `q` of the longer recording, `o + m` frames of it.
  filled_frames :
      take ((o + m) * r.cfg.channels) (filled r c o source)
      ≡ slice (w ++ source) (q * r.cfg.chunk_frames * r.cfg.channels) ((o + m) * r.cfg.channels)
  filled_frames =
      take-splice c.buf (o * r.cfg.channels) ((o + m) * r.cfg.channels) source room_samples
        (omega (arith, v.frames))
      ∙ ap (λ l. l ++ source) kept
      ∙ ap (λ l. l ++ source)
          (sym (
            slice-append w source (q * r.cfg.chunk_frames * r.cfg.channels) (o * r.cfg.channels)
              (omega (arith, v.holds.recorded, ap (λ t. t * r.cfg.channels) v.head))))
      ∙ ap
          (λ l.
            slice (w ++ source) (q * r.cfg.chunk_frames * r.cfg.channels) (o * r.cfg.channels) ++ l)
          (sym (
            slice-append_right w source (r.global_write_frame * r.cfg.channels) (m * r.cfg.channels)
              v.holds.recorded
            ∙ take-all (m * r.cfg.channels) source (omega (arith, v.frames))))
      ∙ slice-++ (w ++ source) (q * r.cfg.chunk_frames * r.cfg.channels)
          (r.global_write_frame * r.cfg.channels) (o * r.cfg.channels) (m * r.cfg.channels)
          ((o + m) * r.cfg.channels) (omega (arith, ap (λ t. t * r.cfg.channels) v.head))
          (omega arith)

  width : add_u32 o m ≡ o + m
  width = add_u32_lem o m (omega (arith, v.room, v.holds.valid.frames_u32))

  in_range : r.write_chunk < length r.chunks
  in_range = get_elem?-lt r.chunks r.write_chunk v.found

  full_before : (k : ℕ) → k < q → k * r.cfg.chunk_frames + r.cfg.chunk_frames ≤ r.global_write_frame
  full_before k h = block_full r.cfg.chunk_frames r.global_write_frame k q h (omega (arith, v.head))

  past_block : (k : ℕ) → k < q → q < k + r.cfg.chunk_count → Block r w k
  past_block k h near =
      v.holds.block k (omega (arith, full_before k h, v.holds.valid.some_frames))
        (omega (arith, v.head, v.offset, mul-le-mul_right r.cfg.chunk_frames near))

  past_block_within :
      (k : ℕ) (h : k < q) (near : q < k + r.cfg.chunk_count)
      → k * r.cfg.chunk_frames * r.cfg.channels
          + (past_block k h near).chunk.valid_frame_count * r.cfg.channels
        ≤ length w
  past_block_within k h near = omega (
    arith,
    v.holds.recorded,
    mul-le-mul_right {m = k * r.cfg.chunk_frames + (past_block k h near).chunk.valid_frame_count}
        {n = r.global_write_frame} r.cfg.channels
        (omega (arith, full_before k h, (past_block k h near).count)),
  )

  apart : (k : ℕ) → k < q → q < k + r.cfg.chunk_count → r.write_chunk ≢ k % r.cfg.chunk_count
  apart k h near e =
      absurd
        (omega (arith, block_unique r.cfg.chunk_count q k (sym at_head ∙ e) near (omega arith)))

  module _ (next : ℕ) where
    new_block : Block (advanced r c o m source next) (w ++ source) q
    unfolding publish
    new_block = record {
      chunk = record (open_chunk r o c) {
        state = published;
        valid_frame_count = add_u32 o m;
        buf = filled r c o source;
      };
      found = ap (get_elem? _) (sym at_head) ∙ get_elem?-set_self r.chunks r.write_chunk _ in_range;
      is_pub = refl;
      start = opened_start;
      count = omega (arith, width, v.head, v.room);
      frames = rw width filled_frames;
    }

    -- A block other than the head's lies in another chunk, and is complete.
    old_block :
        (k : ℕ)
        → k < q
        → q < k + r.cfg.chunk_count
        → Block (advanced r c o m source next) (w ++ source) k
    unfolding publish
    old_block k h near =
        let old = past_block k h near in
        record {
          chunk = old.chunk;
          found =
              get_elem?-set_ne r.chunks r.write_chunk (k % r.cfg.chunk_count) _ (apart k h near)
              ∙ old.found;
          is_pub = old.is_pub;
          start = old.start;
          count = omega (arith, old.count, full_before k h);
          frames = old.frames ∙ sym (slice-append w source _ _ (past_block_within k h near));
        }

    advanced_block :
        (k : ℕ)
        → k * r.cfg.chunk_frames < r.global_write_frame + m
        → r.global_write_frame + m ≤ (k + r.cfg.chunk_count) * r.cfg.chunk_frames
        → Block (advanced r c o m source next) (w ++ source) k
    advanced_block k h window = elim (ℕ_discrete k q) [
      | yes e ↦ subst (Block _ _) (sym e) new_block
      | no ne ↦ old_block k (omega (arith, le)) near
    ]
      where
        le : k ≤ q
        le =
            block-le r.cfg.chunk_frames (r.global_write_frame + m) k q h
              (omega (arith, v.head, v.room))

        near : q < k + r.cfg.chunk_count
        near = lt_of_mul-lt-mul_right r.cfg.chunk_frames (omega (arith, v.head, v.progress, window))

    advanced-IsBlank :
        (i : ℕ)
        → i < r.cfg.chunk_count
        → r.global_write_frame + m ≤ i * r.cfg.chunk_frames
        → IsBlank (advanced r c o m source next) i
    unfolding publish
    advanced-IsBlank i h past =
        let old = v.holds.blank i h (omega arith) in
        record {
          chunk = old.chunk;
          found = get_elem?-set_ne r.chunks r.write_chunk i _ other ∙ old.found;
          is_writable = old.is_writable;
        }
      where
        before : q < i
        before = lt_of_mul-lt-mul_right r.cfg.chunk_frames (omega (arith, v.head, v.progress, past))

        other : r.write_chunk ≢ i
        other e = absurd (
            omega (
              arith,
              at_head,
              e,
              before,
              mod-eq_of_lt {n = q} {m = r.cfg.chunk_count} (omega (arith, before)),
            ))

    advanced_lengths :
        (i : ℕ) (d : Chunk)
        → get_elem? (advanced r c o m source next).chunks i ≡ some d
        → length d.buf ≡ r.cfg.chunk_frames * r.cfg.channels
    unfolding publish
    advanced_lengths i d e = elim (ℕ_discrete r.write_chunk i) [
      | yes same ↦
          ap samples_of (
            sym e
            ∙ ap (get_elem? _) (sym same)
            ∙ get_elem?-set_self r.chunks r.write_chunk _ in_range)
          ∙ length-splice c.buf (o * r.cfg.channels) source room_samples
          ∙ length_buf
      | no ne ↦ v.holds.lengths i d (sym (get_elem?-set_ne r.chunks r.write_chunk i _ ne) ∙ e)
    ]

    advanced_index :
        (advanced r c o m source next).write_chunk
        ≡ (r.global_write_frame + m) / r.cfg.chunk_frames % r.cfg.chunk_count
    unfolding publish
    advanced_index = elim (dec_lt (o + m) r.cfg.chunk_frames) [
      | yes inside ↦
          rw (width, lt→leb_false r.cfg.chunk_frames (o + m) inside)
            (at_head
              ∙ ap (λ t. t % r.cfg.chunk_count)
                  (sym (div_of_block r.cfg.chunk_frames q (o + m) inside)
                    ∙ ap (λ t. t / r.cfg.chunk_frames) (omega (arith, v.head))))
      | no over ↦
          rw (width, le→leb r.cfg.chunk_frames (o + m) (omega arith))
            (ap₂ (λ t n. (t + 1) % n) at_head v.holds.sized
              ∙ next_index r.cfg.chunk_count q
              ∙ ap (λ t. t % r.cfg.chunk_count)
                  (sym (div_of_block r.cfg.chunk_frames (q + 1) 0 v.holds.valid.some_frames)
                    ∙ ap (λ t. t / r.cfg.chunk_frames) (omega (arith, v.head, v.room))))
    ]

    -- The ring then holds the longer recording.
    pub advanced-Holds : Holds (advanced r c o m source next) (w ++ source)
    unfolding publish
    advanced-Holds = record {
      valid = v.holds.valid;
      sized = length-set r.chunks r.write_chunk _ ∙ v.holds.sized;
      recorded = length-append w source ∙ omega (arith, v.holds.recorded, v.frames);
      counted = v.counted;
      cleared = omega (arith, v.holds.cleared);
      write_index = advanced_index;
      lengths = advanced_lengths;
      block = advanced_block;
      blank = advanced-IsBlank;
    }
