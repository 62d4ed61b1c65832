-- ===== src/Ring/Pinned.antt =====
-- The writer never touches a chunk that a snapshot has pinned.
use last_audio_memory_buffer.Base.{
  ℕ, zero, suc, ◌-◌, ◌%◌, ◌/◌, ◌<◌, ◌≤◌, ◌≡◌, ◌∙◌, sym, ap, min, List, length, get_elem?,
  get_elem?-set_ne, some, Bool, true, false, not, ◌||◌, ltb, ◌==◌, arith, each_option, each_branch,
  both_options, both_branches, checked_add, slice?, splice?, mul_u64, add_u32, ltb_false→le,
}
use last_audio_memory_buffer.Base.Error.{Result, ok}
use last_audio_memory_buffer.Ring.{Chunk, SampleRing, add_dropped_frames, record_overrun}
use last_audio_memory_buffer.Ring.Write.{
  Turn, stop, continue, open_chunk, publish, fill, following_sequence, write_turn, write_loop,
  write_interleaved,
}

-- Every pinned chunk of the ring `r` is in the ring `t` as it was.
abbrev pub KeepsPinned : SampleRing → SampleRing → Type 0
KeepsPinned r t =
    (i : ℕ) (c : Chunk)
    → get_elem? r.chunks i ≡ some c
    → 0 < c.pin_count
    → get_elem? t.chunks i ≡ some c

abbrev turn_ring : Turn → SampleRing
turn_ring (stop r result) = r
turn_ring (continue r frame_index) = r

overrun-chunks :
    (now frames : ℕ) (r : SampleRing) → (record_overrun now frames r).0.chunks ≡ r.chunks
unfolding record_overrun add_dropped_frames
overrun-chunks now frames r = ground arith

publish-KeepsPinned :
    (r : SampleRing) (c d : Chunk) (buf : List ℕ) (new_valid new_global next_sequence : ℕ)
    → get_elem? r.chunks r.write_chunk ≡ some c
    → c.pin_count ≤ 0
    → KeepsPinned r (publish r d buf new_valid new_global next_sequence)
unfolding publish
publish-KeepsPinned r c d buf new_valid new_global next_sequence at unpinned i p found pinned =
    get_elem?-set_ne r.chunks r.write_chunk i _ (λ e.
      let same : some c ≡ some p = sym at ∙ ap (get_elem? r.chunks) e ∙ found in
      let chunk : c ≡ p = cc in
      omega (arith, ap (λ (x : Chunk). x.pin_count) chunk, unpinned, pinned))
    ∙ found

fill-KeepsPinned :
    (samples : List ℕ) (r : SampleRing) (c : Chunk)
    (frame_index offset frames new_global next_sequence : ℕ)
    → get_elem? r.chunks r.write_chunk ≡ some c
    → c.pin_count ≤ 0
    → KeepsPinned r
        (turn_ring (fill samples r c frame_index offset frames new_global next_sequence))
unfolding fill
fill-KeepsPinned samples r c frame_index offset frames new_global next_sequence at unpinned =
    both_options (λ t. KeepsPinned r (turn_ring t))
      (slice? samples (mul_u64 frame_index r.cfg.channels) (mul_u64 frames r.cfg.channels))
      (λ i p found pinned. found)
      (λ source.
        both_options (λ t. KeepsPinned r (turn_ring t))
          (splice? c.buf (mul_u64 offset r.cfg.channels) source) (λ i p found pinned. found)
          (λ buf.
            publish-KeepsPinned r c (open_chunk r offset c) buf (add_u32 offset frames) new_global
              next_sequence at unpinned))

turn-KeepsPinned :
    (now : ℕ) (samples : List ℕ) (total_frames : ℕ) (r : SampleRing) (frame_index : ℕ)
    → KeepsPinned r (turn_ring (write_turn now samples total_frames r frame_index))
unfolding write_turn
turn-KeepsPinned now samples total_frames r frame_index =
    let offset = r.global_write_frame % r.cfg.chunk_frames in
    let frames = min (r.cfg.chunk_frames - offset) (total_frames - frame_index) in
    each_option (λ t. KeepsPinned r (turn_ring t)) (get_elem? r.chunks r.write_chunk)
      (λ _ i p found pinned. found)
      (λ c at.
        both_options (λ t. KeepsPinned r (turn_ring t)) (checked_add r.global_write_frame frames)
          (λ i p found pinned. found)
          (λ new_global.
            both_options (λ t. KeepsPinned r (turn_ring t)) (following_sequence r offset)
              (λ i p found pinned. found)
              (λ next_sequence.
                each_branch (λ t. KeepsPinned r (turn_ring t)) (ltb 0 c.pin_count)
                  (λ _ i p found pinned.
                    ap (λ l. get_elem? l i) (overrun-chunks now (total_frames - frame_index) r)
                    ∙ found)
                  (λ free.
                    fill-KeepsPinned samples r c frame_index offset frames new_global next_sequence
                      at (ltb_false→le 0 c.pin_count free)))))

loop_turn-KeepsPinned :
    (fuel now : ℕ) (samples : List ℕ) (total_frames : ℕ) (r : SampleRing) (t : Turn)
    → KeepsPinned r (turn_ring t)
    → ((r' : SampleRing) (frame_index : ℕ)
        → KeepsPinned r' (write_loop fuel now samples total_frames r' frame_index).0)
    → KeepsPinned r
        (elim t as (λ _. SampleRing × Result (Unit {0})) [
          | stop r' result ↦ (r', result)
          | continue r' frame_index ↦ write_loop fuel now samples total_frames r' frame_index
        ]).0
loop_turn-KeepsPinned fuel now samples total_frames r (stop r' result) kept rest = kept
loop_turn-KeepsPinned fuel now samples total_frames r (continue r' frame_index) kept rest =
    λ i p found pinned. rest r' frame_index i p (kept i p found pinned) pinned

loop_test-KeepsPinned :
    (r : SampleRing) (b : Bool) (x y : SampleRing × Result (Unit {0}))
    → KeepsPinned r x.0
    → KeepsPinned r y.0
    → KeepsPinned r (elim b as (λ _. SampleRing × Result (Unit {0})) [ false ↦ x | true ↦ y ]).0
loop_test-KeepsPinned r false x y px py = px
loop_test-KeepsPinned r true x y px py = py

loop-KeepsPinned :
    (fuel now : ℕ) (samples : List ℕ) (total_frames : ℕ) (r : SampleRing) (frame_index : ℕ)
    → KeepsPinned r (write_loop fuel now samples total_frames r frame_index).0
unfolding write_loop
loop-KeepsPinned zero now samples total_frames r frame_index = λ i p found pinned. found
loop-KeepsPinned (suc fuel) now samples total_frames r frame_index =
    loop_test-KeepsPinned r (ltb frame_index total_frames) (r, ok tt) _ (λ i p found pinned. found)
      (loop_turn-KeepsPinned fuel now samples total_frames r
        (write_turn now samples total_frames r frame_index)
        (turn-KeepsPinned now samples total_frames r frame_index)
        (loop-KeepsPinned fuel now samples total_frames))

-- A write leaves every chunk that is pinned exactly as it was, whatever it is given and however it
-- ends, so what a snapshot has pinned stays what it was.
pub write-KeepsPinned :
    (now : ℕ) (samples : List ℕ) (channels : ℕ) (r : SampleRing)
    → KeepsPinned r (write_interleaved now samples channels r).0
unfolding write_interleaved
write-KeepsPinned now samples channels r =
    both_branches (λ (p : SampleRing × Result (Unit {0})). KeepsPinned r p.0)
      (not (channels == r.cfg.channels)) (λ i p found pinned. found)
      (both_branches (λ (p : SampleRing × Result (Unit {0})). KeepsPinned r p.0)
        (channels == 0 || not (length samples % channels == 0)) (λ i p found pinned. found)
        (loop-KeepsPinned (length samples / channels) now samples (length samples / channels) r 0))
