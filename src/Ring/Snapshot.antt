-- ===== src/Ring/Snapshot.antt =====
-- Snapshots of sample_ring.rs: the segments of a range, pinned in their chunks, and the slot that
-- an active snapshot holds. Pinning happens under the writer's lock, the check of the coverage
-- after it, so they are separate functions of the ring. The messages leave out the frame numbers.
use last_audio_memory_buffer.Base.{
  ℕ, zero, suc, ◌+◌, ◌-◌, ◌*◌, ◌/◌, ◌%◌, min, max, List, [], ◌∷◌, ◌++◌, length, get_elem?, set,
  Option, none, some, Bool, true, false, not, ◌||◌, if◌then◌else◌, ltb, leb, ◌==◌, add_u32, add_u64,
  u32_mod,
}
use last_audio_memory_buffer.Base.Error.{
  Result, ok, err, panic, control, export, ◌>>=◌, ◌>>◌, require, ok_or,
}
use last_audio_memory_buffer.Ring.{Chunk, SampleRing, is_published}
use last_audio_memory_buffer.Ring.Copy.{oldest_frame_at}

-- `SnapshotSegment`, with its chunk by index.
pub record SnapshotSegment : Type 0 where
  pub chunk : ℕ
  pub expected_sequence : ℕ
  pub start_frame_in_chunk : ℕ
  pub frame_count : ℕ

-- `Snapshot`; `active_counter` says whether it holds a slot.
pub record Snapshot : Type 0 where
  pub segments : List SnapshotSegment
  pub start_frame : ℕ
  pub end_frame : ℕ
  pub channels : ℕ
  pub sample_rate : ℕ
  pub total_frames : ℕ
  pub active_counter : Bool

pub record SnapshotSelection : Type 0 where
  pub requested_start : ℕ
  pub oldest_frame : ℕ
  pub snapshot : Snapshot

-- `fetch_sub(1)` on a `u32`.
abbrev pub decrement : ℕ → ℕ
decrement n = (n + (u32_mod - 1)) % u32_mod

-- The overlap of a chunk with a range: its first frame and its end.
unfoldable pub overlap : Chunk → ℕ → ℕ → Option (ℕ × ℕ)
overlap c range_start range_end =
    let valid_end = add_u64 c.valid_start_frame c.valid_frame_count in
    if not (is_published c.state)
    then none
    else if leb valid_end range_start || leb range_end c.valid_start_frame
    then none
    else if leb (min valid_end range_end) (max c.valid_start_frame range_start)
    then none
    else some (max c.valid_start_frame range_start, min valid_end range_end)

-- `collect_segments`, from an offset on. With the writer's lock held, a chunk that is pinned is
-- still published with the same sequence, so its second check holds.
unfoldable pub collect_segments : ℕ → ℕ → ℕ → ℕ → ℕ → List Chunk → List Chunk × List SnapshotSegment
unfolding overlap
collect_segments zero offset first_chunk range_start range_end chunks = (chunks, [])
collect_segments (suc n) offset first_chunk range_start range_end chunks =
    let index = (first_chunk + offset) % length chunks in
    elim (get_elem? chunks index) [
      | none ↦ (chunks, [])
      | some c ↦ elim (overlap c range_start range_end) [
        | none ↦ collect_segments n (offset + 1) first_chunk range_start range_end chunks
        | some (overlap_start, overlap_end) ↦
            let pinned = set chunks index (record c { pin_count = add_u32 c.pin_count 1 }) in
            let rest = collect_segments n (offset + 1) first_chunk range_start range_end pinned in
            (
              rest.0,
              record {
                chunk = index;
                expected_sequence = c.sequence;
                start_frame_in_chunk = (overlap_start - c.valid_start_frame) % u32_mod;
                frame_count = (overlap_end - overlap_start) % u32_mod;
              }
                  ∷ rest.1,
            )
      ]
    ]

-- `ActiveSnapshotGuard::acquire`
unfoldable pub acquire : SampleRing → Result SampleRing
acquire r =
    if leb r.cfg.max_active_snapshots r.active_snapshots
    then err (control "export already active")
    else ok (record r { active_snapshots = add_u32 r.active_snapshots 1 })

-- `pin_snapshot_range`: the ring after it, and the segments with whether a slot was taken.
unfoldable pub pin_snapshot_range :
    ℕ → ℕ → ℕ → ℕ → SampleRing → SampleRing × Result (List SnapshotSegment × Bool)
unfolding collect_segments acquire
pin_snapshot_range start end head oldest r =
    if ltb end start
    then (r, err (control "snapshot range start exceeds end"))
    else if ltb start oldest
    then (r, err (control "snapshot range starts before oldest retained frame"))
    else if ltb head end
    then (r, err (control "snapshot range ends after write head"))
    else if start == end
    then (r, ok ([], false))
    else elim (acquire r) [
      | err e ↦ (r, err e)
      | ok held ↦
          let first_chunk = start / r.cfg.chunk_frames % length r.chunks in
          let collected = collect_segments (length r.chunks) 0 first_chunk start end held.chunks in
          (record held { chunks = collected.0 }, ok (collected.1, true))
    ]

-- The frame a segment starts at.
unfoldable pub segment_start : SampleRing → SnapshotSegment → ℕ
segment_start r s = elim (get_elem? r.chunks s.chunk) [
  | none ↦ s.start_frame_in_chunk
  | some c ↦ add_u64 c.valid_start_frame s.start_frame_in_chunk
]

-- `sort_by_key`, which is stable.
unfoldable pub insert_segment :
    SampleRing → SnapshotSegment → List SnapshotSegment → List SnapshotSegment
unfolding segment_start
insert_segment r s [] = s ∷ []
insert_segment r s (t ∷ ts) =
    let rest = insert_segment r s ts in
    if leb (segment_start r s) (segment_start r t) then s ∷ t ∷ ts else t ∷ rest

unfoldable pub sort_segments : SampleRing → List SnapshotSegment → List SnapshotSegment
unfolding insert_segment
sort_segments r [] = []
sort_segments r (s ∷ ss) = insert_segment r s (sort_segments r ss)

unfoldable pub sum_frames : List SnapshotSegment → ℕ
sum_frames [] = 0
sum_frames (s ∷ ss) = add_u64 s.frame_count (sum_frames ss)

-- The check that segments follow one another: the frame they end at.
unfoldable pub coverage : SampleRing → ℕ → List SnapshotSegment → Result ℕ
unfolding segment_start
coverage r expected_start [] = ok expected_start
coverage r expected_start (s ∷ ss) =
    let rest = coverage r (add_u64 (segment_start r s) s.frame_count) ss in
    if segment_start r s == expected_start
    then rest
    else err (control "snapshot range has incomplete coverage")

-- A segment's pin is taken back.
unfoldable pub unpin_all : List SnapshotSegment → List Chunk → List Chunk
unpin_all [] chunks = chunks
unpin_all (s ∷ ss) chunks = elim (get_elem? chunks s.chunk) [
  | none ↦ unpin_all ss chunks
  | some c ↦ unpin_all ss (set chunks s.chunk (record c { pin_count = decrement c.pin_count }))
]

-- The end of a snapshot, or of a guard that still holds its slot.
unfoldable pub release : List SnapshotSegment → Bool → SampleRing → SampleRing
unfolding unpin_all
release segments slot r = record r {
  chunks = unpin_all segments r.chunks;
  active_snapshots = if slot then decrement r.active_snapshots else r.active_snapshots;
}

-- `Drop` of a `Snapshot`.
unfoldable pub drop_snapshot : Snapshot → SampleRing → SampleRing
unfolding release
drop_snapshot s r = release s.segments s.active_counter r

-- `finish_snapshot`: on an error the local snapshot and the guard are dropped.
unfoldable pub finish_snapshot :
    ℕ → ℕ → List SnapshotSegment → Bool → SampleRing → SampleRing × Result Snapshot
unfolding sort_segments sum_frames coverage release
finish_snapshot start end segments guard r =
    let sorted = sort_segments r segments in
    elim (coverage r start sorted) [
      | err e ↦ (release sorted guard r, err e)
      | ok covered ↦
          if covered == end
          then (
            r,
            ok (record {
              segments = sorted;
              start_frame = start;
              end_frame = end;
              channels = r.cfg.channels;
              sample_rate = r.cfg.sample_rate;
              total_frames = sum_frames sorted;
              active_counter = guard;
            }),
          )
          else (release sorted guard r, err (control "snapshot range has incomplete coverage"))
    ]

-- `snapshot_range`, without a turn of the writer between its two halves.
unfoldable pub snapshot_range : ℕ → ℕ → SampleRing → SampleRing × Result Snapshot
unfolding pin_snapshot_range finish_snapshot oldest_frame_at
snapshot_range start end r =
    let pinned =
      pin_snapshot_range start end r.global_write_frame (oldest_frame_at r r.global_write_frame)
        r in
    elim pinned.1 [
      | err e ↦ (pinned.0, err e)
      | ok (segments, guard) ↦ finish_snapshot start end segments guard pinned.0
    ]

unfoldable pub snapshot_last_frames : ℕ → SampleRing → SampleRing × Result Snapshot
unfolding snapshot_range oldest_frame_at
snapshot_last_frames requested_frames r =
    let head = r.global_write_frame in
    snapshot_range (max (head - requested_frames) (oldest_frame_at r head)) head r

unfoldable pub select_snapshot : Option ℕ → SampleRing → SampleRing × Result SnapshotSelection
unfolding snapshot_range oldest_frame_at
select_snapshot committed_start r =
    let oldest = oldest_frame_at r r.global_write_frame in
    let requested_start : ℕ = elim committed_start [ none ↦ oldest | some start ↦ start ] in
    let taken = snapshot_range (max requested_start oldest) r.global_write_frame r in
    elim taken.1 [
      | err e ↦ (taken.0, err e)
      | ok snapshot ↦ (
        taken.0,
        ok (record {
          requested_start = requested_start;
          oldest_frame = oldest;
          snapshot = snapshot;
        }),
      )
    ]

-- The samples of one channel in a segment, from a frame offset on.
unfoldable pub read_segment : ℕ → ℕ → ℕ → ℕ → List ℕ → Result (List ℕ)
read_segment zero frame channels channel_index buf = ok []
read_segment (suc n) frame channels channel_index buf = do
  sample ← ok_or (get_elem? buf (frame * channels + channel_index)) panic
  rest ← read_segment n (frame + 1) channels channel_index buf
  ok (sample ∷ rest)

unfoldable pub read_segments : SampleRing → ℕ → ℕ → List SnapshotSegment → Result (List ℕ)
unfolding read_segment
read_segments r channels channel_index [] = ok []
read_segments r channels channel_index (s ∷ ss) = do
  c ← ok_or (get_elem? r.chunks s.chunk) panic
  require (c.sequence == s.expected_sequence) (export "snapshot segment generation mismatch")
  require (is_published c.state) (export "snapshot segment generation mismatch")
  samples ← read_segment s.frame_count s.start_frame_in_chunk channels channel_index c.buf
  rest ← read_segments r channels channel_index ss
  ok (samples ++ rest)

-- `read_channel_samples`
unfoldable pub read_channel_samples : SampleRing → Snapshot → ℕ → Result (List ℕ)
unfolding read_segments
read_channel_samples r s channel_index =
    if leb s.channels channel_index
    then err (export "channel index out of range")
    else read_segments r s.channels channel_index s.segments
