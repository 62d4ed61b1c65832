-- ===== src/Ring/Fresh.antt =====
-- Rings that hold nothing, such as those that `new` makes.
use last_audio_memory_buffer.Base.{
  ℕ, zero, suc, ◌+◌, ◌*◌, ◌%◌, ◌/◌, ◌<◌, ◌≤◌, ◌≡◌, ◌∙◌, refl, sym, ap, List, [], ◌∷◌, Option, some,
  none, subst, Bool, arith, length, get_elem?, get_elem?-IsSome, length-replicate, u32_max,
  checked_add, checked_mul,
}
use last_audio_memory_buffer.Base.Error.{Result, ok, err, ok_or, >>=-eq-ok, LambError}
use last_audio_memory_buffer.Ring.{RingConfig, Chunk, SampleRing, writable, clear}
use last_audio_memory_buffer.Ring.New.{new_zeroed, new_chunks, new, fresh_chunk}
use last_audio_memory_buffer.Ring.Holds.{Holds, IsValid}
use last_audio_memory_buffer.Ring.Recording.{IsUnpinned}

-- A chunk that holds nothing, with room for `samples`.
pub record IsFresh (samples : ℕ) (c : Chunk) : Type 0 where
  pub state : c.state ≡ writable
  pub room : length c.buf ≡ samples

abbrev pub AllFresh : ℕ → List Chunk → Type 0
AllFresh samples cs = (i : ℕ) (c : Chunk) → get_elem? cs i ≡ some c → IsFresh samples c

abbrev pub FreshBy : ℕ → Option Chunk → Type 0
FreshBy samples none = Unit
FreshBy samples (some c) = IsFresh samples c

-- A ring at frame 0 whose chunks are fresh holds nothing.
pub empty-Holds :
    (r : SampleRing)
    → IsValid r.cfg
    → length r.chunks ≡ r.cfg.chunk_count
    → r.global_write_frame ≡ 0
    → r.clear_after_frame ≡ 0
    → r.write_chunk ≡ 0
    → AllFresh (r.cfg.chunk_frames * r.cfg.channels) r.chunks
    → Holds r []
empty-Holds r valid sized head clear index fresh = record {
  valid = valid;
  sized = sized;
  recorded = omega (arith, ap (λ t. t * r.cfg.channels) head);
  counted = omega arith;
  cleared = omega arith;
  write_index =
      index
      ∙ sym (
          ap (λ t. t / r.cfg.chunk_frames % r.cfg.chunk_count) head
          ∙ omega (arith, valid.some_frames, valid.some_chunks));
  lengths = λ i c e. (fresh i c e).room;
  block = λ k h near. absurd (omega arith);
  blank = λ i h past.
      let (c, e) = get_elem?-IsSome r.chunks i (omega arith) in
      record { chunk = c; found = e; is_writable = (fresh i c e).state };
}

pub new_zeroed-eq_ok :
    (granted : Bool) (len : ℕ) {buf : List ℕ} → new_zeroed granted len ≡ ok buf → length buf ≡ len
unfolding new_zeroed
new_zeroed-eq_ok granted len h = ground (arith, length-replicate {A = ℕ} len 0)

-- The chunks that `new` makes are as many as asked for, fresh and unpinned, and the bytes of their
-- samples are counted.
record Made (samples n bytes : ℕ) (cs : List Chunk) (all_bytes : ℕ) : Type 0 where
  count : length cs ≡ n
  counted : all_bytes ≡ bytes + n * (samples * 4)
  fresh : AllFresh samples cs
  unpinned : (i : ℕ) (c : Chunk) → get_elem? cs i ≡ some c → c.pin_count ≡ 0

pub get_elem?-nil : (i : ℕ) {c : Chunk} → get_elem? [] i ≡ some c → ⊥
get_elem?-nil i e = cc

AllFresh-cons :
    (samples : ℕ) (buf : List ℕ) (cs : List Chunk)
    → length buf ≡ samples
    → AllFresh samples cs
    → AllFresh samples (fresh_chunk buf ∷ cs)
AllFresh-cons samples buf cs h rest zero c e =
    subst (λ (o : Option Chunk). FreshBy samples o) e (record { state = refl; room = h })
AllFresh-cons samples buf cs h rest (suc i) c e = rest i c e

unpinned-cons :
    (buf : List ℕ) (cs : List Chunk)
    → ((i : ℕ) (c : Chunk) → get_elem? cs i ≡ some c → c.pin_count ≡ 0)
    → (i : ℕ) (c : Chunk) → get_elem? (fresh_chunk buf ∷ cs) i ≡ some c
    → c.pin_count ≡ 0
unpinned-cons buf cs rest zero c e = ground arith
unpinned-cons buf cs rest (suc i) c e = rest i c e

checked_sum : (a b : ℕ) (e : LambError) {c : ℕ} → ok_or (checked_add a b) e ≡ ok c → c ≡ a + b
unfolding checked_add
checked_sum a b e h = ground arith

abbrev value : {A : Type 0} → Result A → Option A
value (ok a) = some a
value (err e) = none

abbrev MadeBy : ℕ → ℕ → ℕ → Option (List Chunk × ℕ) → Type 0
MadeBy samples n bytes none = Unit
MadeBy samples n bytes (some (cs, all_bytes)) = Made samples n bytes cs all_bytes

new_chunks-Made :
    (grants : ℕ → Bool) (samples n i bytes : ℕ) {cs : List Chunk} {all_bytes : ℕ}
    → new_chunks grants samples n i bytes ≡ ok (cs, all_bytes)
    → Made samples n bytes cs all_bytes
unfolding new_chunks
new_chunks-Made grants samples zero i bytes h =
    subst (λ (o : Option (List Chunk × ℕ)). MadeBy samples zero bytes o) (ap value h)
      (record {
        count = refl;
        counted = omega arith;
        fresh = λ j c e. absurd (get_elem?-nil j e);
        unpinned = λ j c e. absurd (get_elem?-nil j e);
      })
new_chunks-Made grants samples (suc n) i bytes h =
    let (buf, made, h1) = >>=-eq-ok (new_zeroed (grants i) samples) _ h in
    let (bytes', summed, h2) = >>=-eq-ok (ok_or (checked_add bytes (samples * 4)) _) _ h1 in
    let ((cs, all_bytes), rest, h3) = >>=-eq-ok (new_chunks grants samples n (i + 1) bytes') _ h2 in
    let others = new_chunks-Made grants samples n (i + 1) bytes' rest in
    subst (λ (o : Option (List Chunk × ℕ)). MadeBy samples (suc n) bytes o) (ap value h3)
      (record {
        count = omega (arith, others.count);
        counted = omega (arith, others.counted, checked_sum bytes (samples * 4) _ summed);
        fresh =
            AllFresh-cons samples buf cs (new_zeroed-eq_ok (grants i) samples made) others.fresh;
        unpinned = unpinned-cons buf cs others.unpinned;
      })

new_facts :
    (page_size : ℕ) (grants_index : Bool) (grants : ℕ → Bool) (cfg : RingConfig) {r : SampleRing}
    {sample_bytes metadata_bytes : ℕ}
    → new page_size grants_index grants cfg ≡ ok (r, sample_bytes, metadata_bytes)
    → (0 < cfg.channels)
      × (0 < cfg.chunk_frames)
      × (0 < cfg.chunk_count)
      × (r.cfg ≡ cfg)
      × (r.write_chunk ≡ 0)
      × (r.global_write_frame ≡ 0)
      × (r.clear_after_frame ≡ 0)
      × (r.active_snapshots ≡ 0)
      × (new_chunks grants (cfg.chunk_frames * cfg.channels) cfg.chunk_count 0 0
          ≡ ok (r.chunks, sample_bytes))
unfolding new checked_mul
new_facts page_size grants_index grants cfg h = ground arith

-- A ring that `new` makes, of a configuration in `u32`, has recorded nothing and is held by no
-- snapshot, and the sample bytes that it reports are those of its chunks.
pub new-Holds :
    (page_size : ℕ) (grants_index : Bool) (grants : ℕ → Bool) (cfg : RingConfig) {r : SampleRing}
    {sample_bytes metadata_bytes : ℕ}
    → cfg.channels ≤ u32_max
    → cfg.chunk_frames ≤ u32_max
    → new page_size grants_index grants cfg ≡ ok (r, sample_bytes, metadata_bytes)
    → Holds r []
      × IsUnpinned r
      × (sample_bytes ≡ cfg.chunk_count * (cfg.chunk_frames * cfg.channels * 4))
new-Holds page_size grants_index grants cfg {r} small_channels small_frames h =
    let (channels, frames, count, same, index, head, clear, active, chunks) =
      new_facts page_size grants_index grants cfg h in
    let made =
      new_chunks-Made grants (cfg.chunk_frames * cfg.channels) cfg.chunk_count 0 0 chunks in
    (
      empty-Holds r
          (subst IsValid (sym same) (record {
            some_channels = channels;
            some_frames = frames;
            some_chunks = count;
            channels_u32 = small_channels;
            frames_u32 = small_frames;
          }))
          (made.count ∙ sym (ap (λ (c : RingConfig). c.chunk_count) same)) head clear index
          (subst (λ (c : RingConfig). AllFresh (c.chunk_frames * c.channels) r.chunks) (sym same)
            made.fresh),
      made.unpinned,
      omega (arith, made.counted),
    )
