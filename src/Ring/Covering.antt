-- ===== src/Ring/Covering.antt =====
-- What a finished snapshot covers, and what a refused one leaves.
use last_audio_memory_buffer.Base.{
  ℕ, ◌+◌, ◌-◌, ◌%◌, ◌<◌, ◌≤◌, ◌≡◌, ◌⊎◌, sym, ap, ◌∙◌, List, [], ◌∷◌, Bool, arith, if◌then◌else◌,
  ltb, add_u64, u64_mod,
}
use last_audio_memory_buffer.Base.Error.{LambError, ok, err, control}
use last_audio_memory_buffer.Ring.{SampleRing}
use last_audio_memory_buffer.Ring.Copy.{oldest_frame, oldest_frame_at}
use last_audio_memory_buffer.Ring.Snapshot.{
  SnapshotSegment, Snapshot, acquire, segment_start, sum_frames, coverage, pin_snapshot_range,
  finish_snapshot, snapshot_range,
}

-- The segments lie one after the other in the ring, from one frame to another.
abbrev pub Covers : SampleRing → ℕ → ℕ → List SnapshotSegment → Type 0
Covers r start end [] = start ≡ end
Covers r start end (s ∷ ss) =
    (segment_start r s ≡ start) × Covers r (add_u64 start s.frame_count) end ss

coverage-Covers :
    (r : SampleRing) (start : ℕ) (ss : List SnapshotSegment) {end : ℕ}
    → coverage r start ss ≡ ok end
    → Covers r start end ss
unfolding coverage
coverage-Covers r start [] h = cc
coverage-Covers r start (s ∷ ss) {end} h =
    let (same, rest) = first_step h in
    (
      same,
      coverage-Covers r (add_u64 start s.frame_count) ss
          (ap (λ t. coverage r (add_u64 t s.frame_count) ss) (sym same) ∙ rest),
    )
  where
    first_step :
        coverage r start (s ∷ ss) ≡ ok end
        → (segment_start r s ≡ start)
          × (coverage r (add_u64 (segment_start r s) s.frame_count) ss ≡ ok end)
    first_step h = (ground arith, ground arith)

Covers-total :
    (r : SampleRing) (start end : ℕ) (ss : List SnapshotSegment)
    → start < u64_mod
    → Covers r start end ss
    → end ≡ (start + sum_frames ss) % u64_mod
unfolding sum_frames add_u64
Covers-total r start end [] small h = omega arith
Covers-total r start end (s ∷ ss) small h =
    let ih = Covers-total r (add_u64 start s.frame_count) end ss (omega arith) h.1 in
    omega (arith, ih)

sum_frames-lt : (ss : List SnapshotSegment) → sum_frames ss < u64_mod
unfolding sum_frames add_u64
sum_frames-lt [] = omega arith
sum_frames-lt (s ∷ ss) = omega arith

finish_facts :
    (start end : ℕ) (segments : List SnapshotSegment) (guard : Bool) (r : SampleRing) {s : Snapshot}
    → (finish_snapshot start end segments guard r).1 ≡ ok s
    → (coverage r start s.segments ≡ ok end)
      × ((finish_snapshot start end segments guard r).0 ≡ r)
      × (s.start_frame ≡ start)
      × (s.end_frame ≡ end)
      × (s.total_frames ≡ sum_frames s.segments)
      × (s.active_counter ≡ guard)
unfolding finish_snapshot
finish_facts start end segments guard r h = ground arith

-- A snapshot that is finished covers its range: its segments follow one another in the ring from
-- the first frame to the end, it has as many frames as the range, it holds the slot that was taken
-- for it, and the ring is unchanged.
pub finish_snapshot_lem :
    (start end : ℕ) (segments : List SnapshotSegment) (guard : Bool) (r : SampleRing) {s : Snapshot}
    → start ≤ end
    → end < u64_mod
    → (finish_snapshot start end segments guard r).1 ≡ ok s
    → Covers r start end s.segments
      × (s.total_frames ≡ end - start)
      × ((finish_snapshot start end segments guard r).0 ≡ r)
      × (s.active_counter ≡ guard)
finish_snapshot_lem start end segments guard r {s} le small h =
    let (covered, same, _, _, total, slot) = finish_facts start end segments guard r h in
    let covers = coverage-Covers r start s.segments covered in
    let sum = Covers-total r start end s.segments (omega arith) covers in
    let bounded = sum_frames-lt s.segments in
    (covers, omega (arith, sum, total, bounded), same, slot)

abbrev refusal : ℕ → ℕ → ℕ → ℕ → LambError
refusal start end head oldest = control (
    if ltb end start
    then "snapshot range start exceeds end"
    else if ltb start oldest
    then "snapshot range starts before oldest retained frame"
    else if ltb head end
    then "snapshot range ends after write head"
    else "export already active")

pin_refused :
    (start end head oldest : ℕ) (r : SampleRing)
    → (end < start)
      ⊎ (start < oldest)
      ⊎ (head < end)
      ⊎ ((start < end) × (r.cfg.max_active_snapshots ≤ r.active_snapshots))
    → pin_snapshot_range start end head oldest r ≡ (r, err (refusal start end head oldest))
unfolding pin_snapshot_range acquire
pin_refused start end head oldest r h = ground arith

-- A range that is reversed, no longer or not yet in the ring, or not empty while no slot is free,
-- is refused, and nothing stays pinned: the ring is left as it was.
pub snapshot_range_refused :
    (start end : ℕ) (r : SampleRing)
    → (end < start)
      ⊎ (start < oldest_frame r)
      ⊎ (r.global_write_frame < end)
      ⊎ ((start < end) × (r.cfg.max_active_snapshots ≤ r.active_snapshots))
    → (e : LambError) × (snapshot_range start end r ≡ (r, err e))
unfolding snapshot_range oldest_frame
snapshot_range_refused start end r h =
    let oldest = oldest_frame_at r r.global_write_frame in
    let pinned = pin_refused start end r.global_write_frame oldest r h in
    (
      refusal start end r.global_write_frame oldest,
      rw (snapshot_range, pinned)
          (ap (λ q. (q.0, err (refusal start end r.global_write_frame oldest))) pinned),
    )
