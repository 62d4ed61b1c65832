-- ===== src/Ring/Reset.antt =====
-- What `reset` and `clear` leave of a recording.
use native.Mathlib.Nat.{
  add-mul-mod_self_right, mod-eq_of_lt, mul-le-mul_right, div-add-mod', mod-lt,
}
use last_audio_memory_buffer.Base.{
  ℕ, ◌+◌, ◌-◌, ◌%◌, ◌/◌, ◌<◌, ◌≤◌, lt-or-le, div_ceil, div_ceil-le_mul, div_ceil-mul_lt, inl, inr,
  get_elem?-lt, Bool, zero, suc, ◌*◌, ◌≡◌, ◌∙◌, refl, sym, ap, List, [], ◌∷◌, map, some, none,
  subst, false, arith, length, get_elem?, any, not, ◌==◌,
}
use last_audio_memory_buffer.Base.Error.{ok, err, LambError}
use last_audio_memory_buffer.Ring.{Chunk, SampleRing, clear, reset, reset_chunk, is_writing}
use last_audio_memory_buffer.Ring.Copy.{oldest_frame}
use last_audio_memory_buffer.Ring.Holds.{Holds}
use last_audio_memory_buffer.Ring.Recording.{IsUnpinned}
use last_audio_memory_buffer.Ring.Oldest.{oldest_frame_lem, first_block-le_head}
use last_audio_memory_buffer.Ring.Fresh.{IsFresh, empty-Holds, get_elem?-nil}

some-injective : {a b : Chunk} → some a ≡ some b → a ≡ b
some-injective e = cc

map-get_elem? :
    (cs : List Chunk) (i : ℕ) (d : Chunk)
    → get_elem? (map reset_chunk cs) i ≡ some d
    → (c : Chunk) × (get_elem? cs i ≡ some c) × (reset_chunk c ≡ d)
map-get_elem? [] i d e = absurd (get_elem?-nil i e)
map-get_elem? (c ∷ cs) zero d e = (c, refl, cc)
map-get_elem? (c ∷ cs) (suc i) d e = map-get_elem? cs i d e

length-map : (cs : List Chunk) → length (map reset_chunk cs) ≡ length cs
length-map [] = refl
length-map (c ∷ cs) = ap suc (length-map cs)

unpinned_of_any :
    (cs : List Chunk) (i : ℕ) (c : Chunk)
    → any (λ (c : Chunk). not (c.pin_count == 0)) cs ≡ false
    → get_elem? cs i ≡ some c
    → c.pin_count ≡ 0
unpinned_of_any [] i c h e = absurd (get_elem?-nil i e)
unpinned_of_any (d ∷ cs) zero c h e = ground arith
unpinned_of_any (d ∷ cs) (suc i) c h e = unpinned_of_any cs i c (ground arith) e

-- What `reset` returns where it succeeds.
abbrev pub emptied : SampleRing → SampleRing
emptied r = record r {
  chunks = map reset_chunk r.chunks;
  write_chunk = 0;
  global_write_frame = 0;
  clear_after_frame = 0;
  next_sequence = 1;
  dropped_frames = 0;
  last_overrun = none;
}

reset_facts :
    (r : SampleRing)
    → (reset r).1 ≡ ok tt
    → ((reset r).0 ≡ emptied r)
      × (r.active_snapshots ≡ 0)
      × (any (λ (c : Chunk). not (c.pin_count == 0)) r.chunks ≡ false)
unfolding reset
reset_facts r h = ground arith

pub emptied-Holds : {r : SampleRing} {w : List ℕ} → Holds r w → Holds (emptied r) []
emptied-Holds {r} v =
    empty-Holds (emptied r) v.valid (length-map r.chunks ∙ v.sized) refl refl refl (λ i d e.
      let (c, found, same) = map-get_elem? r.chunks i d e in
      subst (IsFresh (r.cfg.chunk_frames * r.cfg.channels)) same
        (record { state = refl; room = v.lengths i c found }))

-- A reset that succeeds leaves a ring that has recorded nothing, dropped nothing and is held by no
-- snapshot; it succeeds only where no snapshot is active.
pub reset-Holds :
    {r : SampleRing} {w : List ℕ}
    → Holds r w
    → (reset r).1 ≡ ok tt
    → Holds (reset r).0 []
      × IsUnpinned (reset r).0
      × ((reset r).0.dropped_frames ≡ 0)
      × (r.active_snapshots ≡ 0)
reset-Holds {r} v h =
    let (same, inactive, unpinned) = reset_facts r h in
    (
      subst (λ s. Holds s []) (sym same) (emptied-Holds v),
      subst IsUnpinned (sym same) (λ i d e.
          let (c, found, eq) = map-get_elem? r.chunks i d e in
          ap (λ (x : Chunk). x.pin_count) (sym eq) ∙ unpinned_of_any r.chunks i c unpinned found),
      ap (λ (s : SampleRing). s.dropped_frames) same,
      inactive,
    )

-- A reset that is refused leaves the ring as it was.
pub reset_refused : (r : SampleRing) {e : LambError} → (reset r).1 ≡ err e → (reset r).0 ≡ r
unfolding reset
reset_refused r h = ground arith

-- `clear` keeps what the ring holds and forgets it: no frame is retained any more.
pub clear-Holds :
    {r : SampleRing} {w : List ℕ}
    → Holds r w
    → Holds (clear r) w × (oldest_frame (clear r) ≡ r.global_write_frame)
unfolding clear
clear-Holds {r} {w} v = (cleared, omega (arith, oldest_frame_lem cleared, first_block-le_head v))
  where
    cleared : Holds (record r { clear_after_frame = r.global_write_frame }) w
    cleared = record {
      valid = v.valid;
      sized = v.sized;
      recorded = v.recorded;
      counted = v.counted;
      cleared = omega arith;
      write_index = v.write_index;
      lengths = v.lengths;
      block = λ k h near.
          let b = v.block k h near in
          record {
            chunk = b.chunk;
            found = b.found;
            is_pub = b.is_pub;
            start = b.start;
            count = b.count;
            frames = b.frames;
          };
      blank = λ i h past.
          let b = v.blank i h past in
          record { chunk = b.chunk; found = b.found; is_writable = b.is_writable };
    }

all_not-any :
    (p : Chunk → Bool) (cs : List Chunk)
    → ((i : ℕ) (c : Chunk) → get_elem? cs i ≡ some c → p c ≡ false)
    → any p cs ≡ false
all_not-any p [] h = refl
all_not-any p (c ∷ cs) h = rw (h 0 c refl) (all_not-any p cs (λ i d e. h (suc i) d e))

-- The latest block before block `n` that falls on chunk `i`.
latest_on :
    (i n count : ℕ) → i < count → i < n → (k : ℕ) × (k % count ≡ i) × (k < n) × (n ≤ k + count)
latest_on i n count small before = (
  i + (n - 1 - i) / count * count,
  add-mul-mod_self_right i ((n - 1 - i) / count) count ∙ mod-eq_of_lt small,
  omega (arith, div-add-mod' (n - 1 - i) count, before),
  omega (
    arith,
    div-add-mod' (n - 1 - i) count,
    mod-lt (n - 1 - i) {m = count} (omega (arith, small)),
  ),
)

module _ {r : SampleRing} {w : List ℕ} (v : Holds r w) where
  begun_block :
      (i : ℕ)
      → i * r.cfg.chunk_frames < r.global_write_frame
      → i < div_ceil r.global_write_frame r.cfg.chunk_frames
  begun_block i begun = elim (lt-or-le i (div_ceil r.global_write_frame r.cfg.chunk_frames)) [
    | inl lt ↦ lt
    | inr le ↦ absurd (
        omega (
          arith,
          begun,
          div_ceil-le_mul r.global_write_frame r.cfg.chunk_frames v.valid.some_frames,
          mul-le-mul_right {m = div_ceil r.global_write_frame r.cfg.chunk_frames} {n = i}
              r.cfg.chunk_frames le,
        ))
  ]

  -- No chunk is left in the state of a write.
  not_writing : (i : ℕ) (c : Chunk) → get_elem? r.chunks i ≡ some c → is_writing c.state ≡ false
  not_writing i c found =
      let inside : i < r.cfg.chunk_count = omega (arith, get_elem?-lt r.chunks i found, v.sized) in
      elim (lt-or-le (i * r.cfg.chunk_frames) r.global_write_frame) [
        | inr past ↦
            let b = v.blank i inside past in
            let same : b.chunk ≡ c = some-injective (sym b.found ∙ found) in
            ap is_writing (ap (λ (x : Chunk). x.state) (sym same) ∙ b.is_writable)
        | inl begun ↦
            let blocks = div_ceil r.global_write_frame r.cfg.chunk_frames in
            let (k, on, before, recent) =
              latest_on i blocks r.cfg.chunk_count inside (begun_block i begun) in
            let b =
              v.block k
                (omega (
                  arith,
                  div_ceil-mul_lt r.global_write_frame r.cfg.chunk_frames v.valid.some_frames,
                  mul-le-mul_right {m = k + 1} {n = blocks} r.cfg.chunk_frames
                      (omega (arith, before)),
                ))
                (omega (
                  arith,
                  div_ceil-le_mul r.global_write_frame r.cfg.chunk_frames v.valid.some_frames,
                  mul-le-mul_right {m = blocks} {n = k + r.cfg.chunk_count} r.cfg.chunk_frames
                      recent,
                )) in
            let same : b.chunk ≡ c =
              some-injective (sym b.found ∙ ap (get_elem? r.chunks) on ∙ found) in
            ap is_writing (ap (λ (x : Chunk). x.state) (sym same) ∙ b.is_pub)
      ]

  -- A ring that no snapshot holds can be reset.
  pub reset_succeeds : IsUnpinned r → r.active_snapshots ≡ 0 → reset r ≡ (emptied r, ok tt)
  unfolding reset
  reset_succeeds unpinned inactive =
      let pins : any (λ (c : Chunk). not (c.pin_count == 0)) r.chunks ≡ false =
        all_not-any (λ (c : Chunk). not (c.pin_count == 0)) r.chunks
          (λ i c e. let z = unpinned i c e in ground arith) in
      let writes : any (λ (c : Chunk). is_writing c.state) r.chunks ≡ false =
        all_not-any (λ (c : Chunk). is_writing c.state) r.chunks not_writing in
      rw (reset, inactive, pins, writes) refl
