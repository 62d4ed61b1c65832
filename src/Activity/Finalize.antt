-- ===== src/Activity/Finalize.antt =====
-- What a frozen decision guarantees of an export: its range and the channels that it keeps.
use last_audio_memory_buffer.Base.{
  ℕ, ◌<◌, ◌≤◌, ◌≡◌, ◌≢◌, ◌∙◌, refl, sym, ap, subst, ◌⊎◌, inl, inr, max, min, List, [], ◌∷◌, map,
  Option, none, some, Bool, true, false, any, all, arith, ◌||◌, if◌then◌else◌, length,
}
use last_audio_memory_buffer.Base.Error.{ok}
use last_audio_memory_buffer.Activity.{
  retain, omit, FrozenChannelDecision, empty_decision, FrozenExportDecision, is_never, outside,
  earlier, retained_evidence, first_evidence, export_start_of, force, reset_decision, finalize,
}
use last_audio_memory_buffer.Activity.Crop.{StartsAt, export_start_of_lem}

-- The evidence of every retained channel is in the range.
abbrev pub AllKept : ℕ → ℕ → List FrozenChannelDecision → Type 0
AllKept start end [] = Unit
AllKept start end (c ∷ cs) =
    ((frame : ℕ)
      → c.disposition ≡ retain
      → c.first_evidence_frame ≡ some frame
      → (start ≤ frame) × (frame < end))
    × AllKept start end cs

abbrev pub omitted : FrozenChannelDecision → FrozenChannelDecision
omitted c = record c { disposition = omit }

abbrev AllOmitted : List FrozenChannelDecision → Type 0
AllOmitted [] = Unit
AllOmitted (c ∷ cs) = (c.disposition ≡ omit) × AllOmitted cs

earlier_left : (f : ℕ) (y : Option ℕ) → (g : ℕ) × (earlier (some f) y ≡ some g) × (g ≤ f)
earlier_left f none = (f, refl, omega arith)
earlier_left f (some y) = (min f y, refl, omega arith)

earlier_right : (x : Option ℕ) (f : ℕ) → (g : ℕ) × (earlier x (some f) ≡ some g) × (g ≤ f)
earlier_right none f = (f, refl, omega arith)
earlier_right (some x) f = (min x f, refl, omega arith)

-- A start that is not after the first evidence, or not after the frozen start, crops no retained
-- channel.
first_evidence-AllKept :
    (start frozen_start frozen_end : ℕ) (cs : List FrozenChannelDecision)
    → any (λ (c : FrozenChannelDecision). outside frozen_start frozen_end c.first_evidence_frame) cs
      ≡ false
    → ((g : ℕ) → first_evidence cs ≡ some g → start ≤ max g frozen_start)
    → AllKept start frozen_end cs
unfolding first_evidence
first_evidence-AllKept start frozen_start frozen_end [] inside bound = tt
first_evidence-AllKept start frozen_start frozen_end (c ∷ cs) inside bound = (
  λ frame kept evidence.
      let (g, e, le) = earlier_left frame (first_evidence cs) in
      let start_le = bound g (rw (first_evidence, kept, evidence) e) in
      let head : outside frozen_start frozen_end c.first_evidence_frame ≡ false = ground arith in
      let within : outside frozen_start frozen_end (some frame) ≡ false =
        ap (outside frozen_start frozen_end) (sym evidence) ∙ head in
      (ground arith, ground arith),
  first_evidence-AllKept start frozen_start frozen_end cs (ground arith) (λ g e.
      let (g', e', le) = earlier_right (retained_evidence c.disposition c.first_evidence_frame) g in
      let start_le = bound g' (rw (first_evidence, e) e') in omega arith),
)

forced-AllOmitted : (cs : List FrozenChannelDecision) → AllOmitted (map (force true) cs)
forced-AllOmitted [] = tt
forced-AllOmitted (c ∷ cs) = (refl, forced-AllOmitted cs)

AllOmitted-AllKept :
    (start end : ℕ) (cs : List FrozenChannelDecision) → AllOmitted cs → AllKept start end cs
AllOmitted-AllKept start end [] h = tt
AllOmitted-AllKept start end (c ∷ cs) h =
    ((λ frame kept evidence. absurd (cc (h.0, kept))), AllOmitted-AllKept start end cs h.1)

unforced : (cs : List FrozenChannelDecision) → map (force false) cs ≡ cs
unforced [] = refl
unforced (c ∷ cs) = ap (λ l. c ∷ l) (unforced cs)

length-map : {A B : Type 0} (f : A → B) (l : List A) → length (map f l) ≡ length l
length-map f [] = refl
length-map f (x ∷ l) = let ih = length-map f l in omega (arith, ih)

-- The crop is within the frozen range, or it is not after the first evidence.
start_bounds :
    (trim : Bool) (sample_rate frozen_start : ℕ) (first : Option ℕ)
    → (frozen_start ≤ export_start_of trim sample_rate frozen_start first)
      × ((g : ℕ)
          → first ≡ some g
          → export_start_of trim sample_rate frozen_start first ≤ max g frozen_start)
unfolding export_start_of
start_bounds false sample_rate frozen_start first = (omega arith, λ g e. omega arith)
start_bounds true sample_rate frozen_start none = (omega arith, λ g e. absurd cc)
start_bounds true sample_rate frozen_start (some frame) = (omega arith, λ g e. ground arith)

-- Nothing is exported: every channel is `Never`, or the whole export is silent.
abbrev pub is_forced : List FrozenChannelDecision → Bool → Bool
is_forced channels gate = all (λ (c : FrozenChannelDecision). is_never c.mode) channels || gate

forced_kept :
    (start frozen_start frozen_end : ℕ) (channels : List FrozenChannelDecision) (forced trim : Bool)
    (sample_rate : ℕ)
    → any
        (λ (c : FrozenChannelDecision). outside frozen_start frozen_end c.first_evidence_frame)
        channels
      ≡ false
    → start
      ≡ export_start_of trim sample_rate frozen_start
          (if forced then none else first_evidence channels)
    → AllKept start frozen_end (map (force forced) channels)
forced_kept start frozen_start frozen_end channels true trim sample_rate inside e =
    AllOmitted-AllKept start frozen_end (map (force true) channels) (forced-AllOmitted channels)
forced_kept start frozen_start frozen_end channels false trim sample_rate inside e =
    subst (AllKept start frozen_end) (sym (unforced channels)) (
      first_evidence-AllKept start frozen_start frozen_end channels inside (λ g f.
        let b = (start_bounds trim sample_rate frozen_start (first_evidence channels)).1 g f in
        omega (arith, b, e)))

module _ {Identity : Type 0} where
  abbrev start_of : ℕ → List FrozenChannelDecision → Bool → Bool → FrozenExportDecision Identity → ℕ
  start_of frozen_start channels trim gate d =
      export_start_of trim d.sample_rate frozen_start
        (if is_forced channels gate then none else first_evidence channels)

  finalize_facts :
      (frozen_start frozen_end : ℕ) (channels : List FrozenChannelDecision) (trim gate : Bool)
      (d : FrozenExportDecision Identity)
      → (finalize frozen_start frozen_end channels trim gate d).1 ≡ ok tt
      → (d.valid ≡ false)
        × (length channels ≡ length d.channels)
        × (any
              (λ (c : FrozenChannelDecision).
                outside frozen_start frozen_end c.first_evidence_frame)
              channels
            ≡ false)
        × (start_of frozen_start channels trim gate d ≤ frozen_end)
        × ((finalize frozen_start frozen_end channels trim gate d).0 ≡ record d {
          channels = map (force (is_forced channels gate)) channels;
          export_start = start_of frozen_start channels trim gate d;
          export_end = frozen_end;
          valid = true;
        })
  unfolding finalize
  finalize_facts frozen_start frozen_end channels trim gate d h = ground arith

  -- What a final decision says of its channels and its start: either nothing is exported, so that
  -- every channel is omitted and is as before otherwise, or the channels are as they were.
  abbrev pub Decides :
      Bool → Bool → ℕ → ℕ → List FrozenChannelDecision → FrozenExportDecision Identity → Type 0
  Decides forced trim sample_rate frozen_start channels d' =
      ((forced ≡ true) × (d'.channels ≡ map omitted channels) × (d'.export_start ≡ frozen_start))
      ⊎ ((forced ≡ false)
          × (d'.channels ≡ channels)
          × StartsAt trim sample_rate frozen_start channels d'.export_start)

  forced-Decides :
      (forced trim : Bool) (frozen_start frozen_end : ℕ) (channels : List FrozenChannelDecision)
      (d : FrozenExportDecision Identity)
      → Decides forced trim d.sample_rate frozen_start channels (record d {
        channels = map (force forced) channels;
        export_start =
            export_start_of trim d.sample_rate frozen_start
              (if forced then none else first_evidence channels);
        export_end = frozen_end;
        valid = true;
      })
  unfolding export_start_of
  forced-Decides true false frozen_start frozen_end channels d = inl (refl, refl, refl)
  forced-Decides true true frozen_start frozen_end channels d = inl (refl, refl, omega arith)
  forced-Decides false trim frozen_start frozen_end channels d =
      inr (refl, unforced channels, export_start_of_lem trim d.sample_rate frozen_start channels)

  -- A decision that is finalised was not final before. Its range ends where the frozen range ends
  -- and lies in it, it has as many channels as before, and no channel that is retained has its
  -- first evidence cropped from the range. Where every mode is `Never`, or the whole export is
  -- exactly zero, the channels are the given ones, each omitted, and the range starts at the frozen
  -- start. Otherwise they are the given ones, unchanged, and with trimming the range starts two
  -- seconds before the earliest evidence of a retained channel, but not before the frozen start;
  -- without trimming, or without evidence, it starts at the frozen start.
  pub finalize_lem :
      (frozen_start frozen_end : ℕ) (channels : List FrozenChannelDecision) (trim gate : Bool)
      (d : FrozenExportDecision Identity)
      → (finalize frozen_start frozen_end channels trim gate d).1 ≡ ok tt
      → let d' = (finalize frozen_start frozen_end channels trim gate d).0 in
        (d.valid ≡ false)
        × (d'.valid ≡ true)
        × (d'.export_end ≡ frozen_end)
        × (frozen_start ≤ d'.export_start)
        × (d'.export_start ≤ frozen_end)
        × (length d'.channels ≡ length d.channels)
        × AllKept d'.export_start d'.export_end d'.channels
        × Decides (is_forced channels gate) trim d.sample_rate frozen_start channels d'
  finalize_lem frozen_start frozen_end channels trim gate d h =
      let (fresh, count, inside, crop, e) =
        finalize_facts frozen_start frozen_end channels trim gate d h in
      let bounds =
        start_bounds trim d.sample_rate frozen_start
          (if is_forced channels gate then none else first_evidence channels) in
      let kept =
        forced_kept (start_of frozen_start channels trim gate d) frozen_start frozen_end channels
          (is_forced channels gate) trim d.sample_rate inside refl in
      rw e (
        fresh,
        refl,
        refl,
        bounds.0,
        crop,
        length-map (force (is_forced channels gate)) channels ∙ count,
        kept,
        forced-Decides (is_forced channels gate) trim frozen_start frozen_end channels d,
      )

  -- A refused call changes nothing; a decision that is final is refused; and a reset makes a
  -- decision not final, with as many channels as before.
  pub finalize_refused :
      (frozen_start frozen_end : ℕ) (channels : List FrozenChannelDecision) (trim gate : Bool)
      (d : FrozenExportDecision Identity)
      → ((finalize frozen_start frozen_end channels trim gate d).1 ≢ ok tt
          → (finalize frozen_start frozen_end channels trim gate d).0 ≡ d)
        × (d.valid ≡ true → (finalize frozen_start frozen_end channels trim gate d).1 ≢ ok tt)
        × ((reset_decision d).valid ≡ false)
        × (length (reset_decision d).channels ≡ length d.channels)
  unfolding finalize reset_decision
  finalize_refused frozen_start frozen_end channels trim gate d =
      ((λ h. ground arith), (λ h. ground arith), refl, length-map (λ _. empty_decision) d.channels)
