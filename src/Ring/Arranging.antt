-- ===== src/Ring/Arranging.antt =====
-- Segments of a snapshot that come in any order (`finish_snapshot` of src/sample_ring.rs).
use last_audio_memory_buffer.Base.{
  ℕ, ◌+◌, ◌-◌, ◌<◌, ◌≤◌, ◌≡◌, ◌∙◌, refl, sym, ap, List, [], ◌∷◌, ◌++◌, Bool, some, arith, add_u64,
  u64_mod, get_elem?, ==_self,
}
use last_audio_memory_buffer.Base.Error.{ok}
use last_audio_memory_buffer.Ring.{SampleRing, Chunk}
use last_audio_memory_buffer.Ring.Snapshot.{
  SnapshotSegment, segment_start, insert_segment, sort_segments, sum_frames, coverage,
  finish_snapshot,
}

-- The segments have frames of chunks of the ring, one after the other from `start` to `end`.
abbrev pub Tiles : SampleRing → ℕ → ℕ → List SnapshotSegment → Type 0
Tiles r start end [] = start ≡ end
Tiles r start end (s ∷ ss) =
    ((c : Chunk) × (get_elem? r.chunks s.chunk ≡ some c)
      × (c.valid_start_frame + s.start_frame_in_chunk ≡ start))
    × (0 < s.frame_count)
    × Tiles r (start + s.frame_count) end ss

-- The first list has the elements of the second, in any order.
abbrev pub Arranges : List SnapshotSegment → List SnapshotSegment → Type 0
Arranges [] ts = ts ≡ []
Arranges (s ∷ ss) ts =
    (before : List SnapshotSegment) × (after : List SnapshotSegment) × (ts ≡ before ++ (s ∷ after))
    × Arranges ss (before ++ after)

-- The segments start one after the other, from `a` on.
abbrev Ascends : SampleRing → ℕ → List SnapshotSegment → Type 0
Ascends r a [] = Unit
Ascends r a (s ∷ ss) = (a ≤ segment_start r s) × Ascends r (segment_start r s + 1) ss

Ascends-le :
    (r : SampleRing) (a b : ℕ) (ss : List SnapshotSegment) → a ≤ b → Ascends r b ss → Ascends r a ss
Ascends-le r a b [] le h = tt
Ascends-le r a b (s ∷ ss) le h = (omega (arith, le, h.0), h.1)

Ascends-without :
    (r : SampleRing) (a : ℕ) (before after : List SnapshotSegment) (s : SnapshotSegment)
    → Ascends r a (before ++ (s ∷ after))
    → Ascends r a (before ++ after)
Ascends-without r a [] after s h =
    Ascends-le r a (segment_start r s + 1) after (omega (arith, h.0)) h.1
Ascends-without r a (b ∷ before) after s h =
    (h.0, Ascends-without r (segment_start r b + 1) before after s h.1)

Ascends-middle :
    (r : SampleRing) (a : ℕ) (before after : List SnapshotSegment) (s : SnapshotSegment)
    → Ascends r a (before ++ (s ∷ after))
    → a ≤ segment_start r s
Ascends-middle r a [] after s h = h.0
Ascends-middle r a (b ∷ before) after s h =
    let m = Ascends-middle r (segment_start r b + 1) before after s h.1 in omega (arith, m, h.0)

-- A segment is inserted where it belongs.
insert_segment-middle :
    (r : SampleRing) (a : ℕ) (before after : List SnapshotSegment) (s : SnapshotSegment)
    → Ascends r a (before ++ (s ∷ after))
    → insert_segment r s (before ++ after) ≡ before ++ (s ∷ after)
unfolding insert_segment
insert_segment-middle r a [] [] s h = refl
insert_segment-middle r a [] (t ∷ after) s h = let le = h.1.0 in ground arith
insert_segment-middle r a (b ∷ before) after s h =
    let ih = insert_segment-middle r (segment_start r b + 1) before after s h.1 in
    let lt = Ascends-middle r (segment_start r b + 1) before after s h.1 in ground arith

sort_segments-Arranges :
    (r : SampleRing) (a : ℕ) (ss ts : List SnapshotSegment)
    → Arranges ss ts
    → Ascends r a ts
    → sort_segments r ss ≡ ts
unfolding sort_segments
sort_segments-Arranges r a [] ts arranged h = sym arranged
sort_segments-Arranges r a (s ∷ ss) ts (before, after, e, arranged) h =
    let h' : Ascends r a (before ++ (s ∷ after)) = rw (sym e) h in
    ap (insert_segment r s) (
      sort_segments-Arranges r a ss (before ++ after) arranged
        (Ascends-without r a before after s h'))
    ∙ insert_segment-middle r a before after s h'
    ∙ sym e

Tiles-le :
    (r : SampleRing) (start end : ℕ) (ss : List SnapshotSegment)
    → Tiles r start end ss
    → start ≤ end
Tiles-le r start end [] h = omega (arith, h)
Tiles-le r start end (s ∷ ss) h =
    let le = Tiles-le r (start + s.frame_count) end ss h.2 in omega (arith, le)

segment_start-Tiles :
    (r : SampleRing) (start : ℕ) (s : SnapshotSegment) (c : Chunk)
    → get_elem? r.chunks s.chunk ≡ some c
    → c.valid_start_frame + s.start_frame_in_chunk ≡ start
    → start < u64_mod
    → segment_start r s ≡ start
unfolding segment_start add_u64
segment_start-Tiles r start s c e at small = rw (segment_start, e) (omega (arith, at, small))

module _ (r : SampleRing) (end : ℕ) (small : end < u64_mod) where
  starts :
      (start : ℕ) (s : SnapshotSegment) (ss : List SnapshotSegment)
      → Tiles r start end (s ∷ ss)
      → segment_start r s ≡ start
  starts start s ss h =
      let le = Tiles-le r start end (s ∷ ss) h in
      segment_start-Tiles r start s h.0.0 h.0.1 h.0.2 (omega (arith, le, small))

  Tiles-Ascends :
      (start : ℕ) (ss : List SnapshotSegment) → Tiles r start end ss → Ascends r start ss
  Tiles-Ascends start [] h = tt
  Tiles-Ascends start (s ∷ ss) h =
      let e = starts start s ss h in
      (
        omega (arith, e),
        Ascends-le r (segment_start r s + 1) (start + s.frame_count) ss (omega (arith, e, h.1))
            (Tiles-Ascends (start + s.frame_count) ss h.2),
      )

  coverage-Tiles :
      (start : ℕ) (ss : List SnapshotSegment) → Tiles r start end ss → coverage r start ss ≡ ok end
  unfolding coverage add_u64
  coverage-Tiles start [] h = ap ok h
  coverage-Tiles start (s ∷ ss) h =
      let e = starts start s ss h in
      let le = Tiles-le r (start + s.frame_count) end ss h.2 in
      let next : add_u64 (segment_start r s) s.frame_count ≡ start + s.frame_count =
        omega (arith, e, le, small) in
      let ih = coverage-Tiles (start + s.frame_count) ss h.2 in
      let rest = ap (λ n. coverage r n ss) next ∙ ih in ground arith

  sum_frames-Tiles :
      (start : ℕ) (ss : List SnapshotSegment) → Tiles r start end ss → sum_frames ss ≡ end - start
  unfolding sum_frames add_u64
  sum_frames-Tiles start [] h = omega (arith, h)
  sum_frames-Tiles start (s ∷ ss) h =
      let ih = sum_frames-Tiles (start + s.frame_count) ss h.2 in
      let le = Tiles-le r (start + s.frame_count) end ss h.2 in omega (arith, ih, le, small)

-- Segments that are not empty and tile a range of `u64` frames, whatever order they are given in,
-- make a snapshot of the range: it has them in the order of their frames, as many frames as the
-- range and the slot that was taken for it, and the ring is unchanged.
pub finish_snapshot-Tiles :
    (start end : ℕ) (segments tiling : List SnapshotSegment) (guard : Bool) (r : SampleRing)
    → end < u64_mod
    → Tiles r start end tiling
    → Arranges segments tiling
    → finish_snapshot start end segments guard r ≡ (
      r,
      ok (record {
        segments = tiling;
        start_frame = start;
        end_frame = end;
        channels = r.cfg.channels;
        sample_rate = r.cfg.sample_rate;
        total_frames = end - start;
        active_counter = guard;
      }),
    )
unfolding finish_snapshot
finish_snapshot-Tiles start end segments tiling guard r small tiles arranged =
    let sorted =
      sort_segments-Arranges r start segments tiling arranged
        (Tiles-Ascends r end small start tiling tiles) in
    let covered = coverage-Tiles r end small start tiling tiles in
    let total = sum_frames-Tiles r end small start tiling tiles in
    simp (finish_snapshot, sorted, covered, total, ==_self end)
