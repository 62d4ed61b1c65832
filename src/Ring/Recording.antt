-- ===== src/Ring/Recording.antt =====
-- `write_interleaved` on a ring that holds a recording: what the ring holds afterwards.
use native.Mathlib.Decide.{dec_lt, ℕ_discrete}
use mathlib.Core.List.{append_assoc, append-nil}
use last_audio_memory_buffer.Base.{
  ℕ, ◌+◌, ◌-◌, ◌*◌, ◌<◌, ◌≤◌, ◌≡◌, ◌++◌, ◌∙◌, refl, sym, ap, subst, List, some, none, Option, arith,
  get_elem?, slice, slice-zero, slice-++, get_elem?-set_self, get_elem?-set_ne, get_elem?-lt,
  u64_mod, checked_add_lem, checked_add-none,
}
use last_audio_memory_buffer.Base.Error.{Result, ok, err, LambError, capture_invariant}
use last_audio_memory_buffer.Ring.{Chunk, SampleRing, record_overrun}
use last_audio_memory_buffer.Ring.Write.{open_chunk, publish}
use last_audio_memory_buffer.Ring.Holds.{Holds}
use last_audio_memory_buffer.Ring.Advance.{Fits, advanced}

-- No snapshot holds a chunk.
abbrev pub IsUnpinned : SampleRing → Type 0
IsUnpinned r = (i : ℕ) (c : Chunk) → get_elem? r.chunks i ≡ some c → c.pin_count ≡ 0

-- The ring's counters of dropped frames do not matter to what it holds.
pub counters-Holds :
    (r : SampleRing) (w : List ℕ) (d : ℕ) (t : Option ℕ)
    → Holds r w
    → Holds (record r { dropped_frames = d; last_overrun = t }) w
counters-Holds r w d t v = record {
  valid = v.valid;
  sized = v.sized;
  recorded = v.recorded;
  counted = v.counted;
  cleared = v.cleared;
  write_index = v.write_index;
  lengths = v.lengths;
  block = λ k h near.
      let b = v.block k h near in
      record {
        chunk = b.chunk;
        found = b.found;
        is_pub = b.is_pub;
        start = b.start;
        count = b.count;
        frames = b.frames;
      };
  blank = λ i h past.
      let b = v.blank i h past in
      record { chunk = b.chunk; found = b.found; is_writable = b.is_writable };
}

record_overrun_ok :
    (now f : ℕ) (r : SampleRing)
    → r.dropped_frames + f < u64_mod
    → record_overrun now f r
      ≡ (record r { dropped_frames = r.dropped_frames + f; last_overrun = some now }, ok tt)
unfolding record_overrun
record_overrun_ok now f r h = ground (arith, checked_add_lem r.dropped_frames f)

record_overrun_err :
    (now f : ℕ) (r : SampleRing)
    → u64_mod ≤ r.dropped_frames + f
    → record_overrun now f r ≡ (r, err (capture_invariant "dropped frame counter exhausted"))
unfolding record_overrun
record_overrun_err now f r h = ground (arith, checked_add-none r.dropped_frames f)

-- What the write loop has done when it ends, started at `first` with `r` holding `w`.
pub record Wrote (r : SampleRing) (w samples : List ℕ) (total_frames first : ℕ)
    (out : SampleRing × Result (Unit {0})) : Type 0 where
  pub upto : ℕ
  pub from : first ≤ upto
  pub to : upto ≤ total_frames
  pub same_cfg : out.0.cfg ≡ r.cfg
  pub same_clear : out.0.clear_after_frame ≡ r.clear_after_frame
  pub same_snapshots : out.0.active_snapshots ≡ r.active_snapshots
  pub stays_unpinned : IsUnpinned r → IsUnpinned out.0
  pub holds :
      Holds out.0 (w ++ slice samples (first * r.cfg.channels) ((upto - first) * r.cfg.channels))
  pub accounted : out.1 ≡ ok tt → out.0.dropped_frames ≡ r.dropped_frames + (total_frames - upto)
  pub succeeds :
      r.global_write_frame + (total_frames - first) < u64_mod
      → r.next_sequence + (total_frames - first) < u64_mod
      → r.dropped_frames + (total_frames - first) < u64_mod
      → out.1 ≡ ok tt
  pub complete : IsUnpinned r → out.1 ≡ ok tt → upto ≡ total_frames

module _ (r : SampleRing) (w samples : List ℕ) (total_frames first : ℕ) (v : Holds r w) where
  unmoved : w ≡ w ++ slice samples (first * r.cfg.channels) ((first - first) * r.cfg.channels)
  unmoved =
      let e : (first - first) * r.cfg.channels ≡ 0 = grind arith in
      rw (e, slice-zero samples (first * r.cfg.channels), append-nil)

  -- A turn that leaves the loop with the ring unchanged, because a counter would overflow.
  pub failed-Wrote :
      (e : LambError)
      → first ≤ total_frames
      → (r.global_write_frame + (total_frames - first) < u64_mod
          → r.next_sequence + (total_frames - first) < u64_mod
          → r.dropped_frames + (total_frames - first) < u64_mod
          → ⊥)
      → Wrote r w samples total_frames first (r, err e)
  failed-Wrote e le no_room = record {
    upto = first;
    from = omega arith;
    to = le;
    same_cfg = refl;
    same_clear = refl;
    same_snapshots = refl;
    stays_unpinned = λ u. u;
    holds = subst (Holds r) unmoved v;
    accounted = λ h. cc;
    succeeds = λ a b d. absurd (no_room a b d);
    complete = λ u h. cc;
  }

  pub overrun-Wrote :
      (now : ℕ) (c : Chunk)
      → first ≤ total_frames
      → get_elem? r.chunks r.write_chunk ≡ some c
      → 0 < c.pin_count
      → Wrote r w samples total_frames first (record_overrun now (total_frames - first) r)
  overrun-Wrote now c le found pinned =
      elim (dec_lt (r.dropped_frames + (total_frames - first)) u64_mod) [
        | yes h ↦ rw (record_overrun_ok now (total_frames - first) r h) (record {
          upto = first;
          from = omega arith;
          to = le;
          same_cfg = refl;
          same_clear = refl;
          same_snapshots = refl;
          stays_unpinned = λ u. u;
          holds = subst (Holds _) unmoved (counters-Holds r w _ _ v);
          accounted = λ _. refl;
          succeeds = λ _ _ _. refl;
          complete = λ u _. absurd (omega (arith, u r.write_chunk c found));
        })
        | no h ↦
            rw (record_overrun_err now (total_frames - first) r (omega arith))
              (failed-Wrote _ le (λ _ _ d. h d))
      ]

  pub done-Wrote : first ≡ total_frames → Wrote r w samples total_frames first (r, ok tt)
  done-Wrote e = record {
    upto = first;
    from = omega arith;
    to = omega arith;
    same_cfg = refl;
    same_clear = refl;
    same_snapshots = refl;
    stays_unpinned = λ u. u;
    holds = subst (Holds r) unmoved v;
    accounted = λ _. omega arith;
    succeeds = λ _ _ _. refl;
    complete = λ _ _. e;
  }

pin_count-open_chunk :
    (r : SampleRing) (o : ℕ) (c : Chunk) → (open_chunk r o c).pin_count ≡ c.pin_count
unfolding open_chunk
pin_count-open_chunk r o c = ground arith

abbrev pins_of : Option Chunk → ℕ
pins_of none = 0
pins_of (some c) = c.pin_count

module _ {r : SampleRing} {w : List ℕ} {c : Chunk} {q o m : ℕ} {source : List ℕ}
    (v : Fits r w c q o m source) (next : ℕ) where
  advanced-IsUnpinned : IsUnpinned r → IsUnpinned (advanced r c o m source next)
  unfolding publish
  advanced-IsUnpinned u i d e = elim (ℕ_discrete r.write_chunk i) [
    | yes same ↦
        ap pins_of (
          sym e
          ∙ ap (get_elem? _) (sym same)
          ∙ get_elem?-set_self r.chunks r.write_chunk _
              (get_elem?-lt r.chunks r.write_chunk v.found))
        ∙ pin_count-open_chunk r o c
        ∙ u r.write_chunk c v.found
    | no ne ↦ u i d (sym (get_elem?-set_ne r.chunks r.write_chunk i _ ne) ∙ e)
  ]

-- A turn that copies goes before the rest of the loop.
pub copied-Wrote :
    {r : SampleRing} {w samples : List ℕ} {total_frames first m : ℕ} {c : Chunk} {q o next : ℕ}
    {out : SampleRing × Result (Unit {0})}
    (v : Fits r w c q o m (slice samples (first * r.cfg.channels) (m * r.cfg.channels)))
    → next ≤ r.next_sequence + 1
    → first + m ≤ total_frames
    → let source = slice samples (first * r.cfg.channels) (m * r.cfg.channels) in
      Wrote (advanced r c o m source next) (w ++ source) samples total_frames (first + m) out
      → Wrote r w samples total_frames first out
unfolding publish
copied-Wrote {r} {w} {samples} {total_frames} {first} {m} {next = next} {out = out} v le within
      rest =
    record {
      upto = rest.upto;
      from = omega (arith, rest.from);
      to = rest.to;
      same_cfg = rest.same_cfg;
      same_clear = rest.same_clear;
      same_snapshots = rest.same_snapshots;
      stays_unpinned = λ u. rest.stays_unpinned (advanced-IsUnpinned v next u);
      holds =
          subst (Holds out.0)
            (append_assoc w _ _
              ∙ ap (λ l. w ++ l)
                  (slice-++ samples (first * r.cfg.channels) ((first + m) * r.cfg.channels)
                    (m * r.cfg.channels) ((rest.upto - (first + m)) * r.cfg.channels)
                    ((rest.upto - first) * r.cfg.channels) (omega arith)
                    (ap (λ t. t * r.cfg.channels) lengths ∙ omega arith)))
            rest.holds;
      accounted = rest.accounted;
      succeeds = λ a b d.
          rest.succeeds (omega (arith, v.progress)) (omega (arith, v.progress))
            (omega (arith, v.progress));
      complete = λ u e. rest.complete (advanced-IsUnpinned v next u) e;
    }
  where
    lengths : rest.upto - first ≡ m + (rest.upto - (first + m))
    lengths = omega (arith, rest.from)
