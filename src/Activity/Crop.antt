-- ===== src/Activity/Crop.antt =====
-- Where an export starts (`FrozenExportDecision::finalize`): the evidence of the retained channels.
use last_audio_memory_buffer.Base.{
  ℕ, ◌*◌, ◌-◌, ◌≤◌, ◌≡◌, refl, ap, max, List, [], ◌∷◌, Option, none, some, Bool, true, false, arith,
  ◌⊎◌, inl, inr, lt-or-le,
}
use last_audio_memory_buffer.Activity.{
  ChannelDisposition, retain, omit, FrozenChannelDecision, retained_evidence, first_evidence,
  export_start_of,
}

-- No retained channel has evidence.
abbrev pub NoEvidence : List FrozenChannelDecision → Type 0
NoEvidence [] = Unit
NoEvidence (c ∷ cs) = (c.disposition ≡ retain → c.first_evidence_frame ≡ none) × NoEvidence cs

-- A retained channel has its first evidence at `frame`.
abbrev pub HasEvidence : ℕ → List FrozenChannelDecision → Type 0
HasEvidence frame [] = ⊥
HasEvidence frame (c ∷ cs) =
    ((c.disposition ≡ retain) × (c.first_evidence_frame ≡ some frame)) ⊎ HasEvidence frame cs

-- No retained channel has evidence before `frame`.
abbrev pub NoneBefore : ℕ → List FrozenChannelDecision → Type 0
NoneBefore frame [] = Unit
NoneBefore frame (c ∷ cs) =
    ((other : ℕ) → c.disposition ≡ retain → c.first_evidence_frame ≡ some other → frame ≤ other)
    × NoneBefore frame cs

-- The start of an export that is not omitted: two seconds before the earliest evidence of a
-- retained channel, but not before the frozen start; without trimming, or without evidence, the
-- frozen start.
abbrev pub StartsAt : Bool → ℕ → ℕ → List FrozenChannelDecision → ℕ → Type 0
StartsAt trim sample_rate frozen_start channels start =
    ((trim ≡ false) × (start ≡ frozen_start))
    ⊎ ((trim ≡ true) × NoEvidence channels × (start ≡ frozen_start))
    ⊎ ((trim ≡ true)
        × ((first : ℕ) × HasEvidence first channels
            × NoneBefore first channels
            × (start ≡ max (first - 2 * sample_rate) frozen_start)))

NoneBefore-le :
    (cs : List FrozenChannelDecision) (f g : ℕ) → f ≤ g → NoneBefore g cs → NoneBefore f cs
NoneBefore-le [] f g le h = tt
NoneBefore-le (c ∷ cs) f g le h =
    ((λ other r e. omega (arith, le, h.0 other r e)), NoneBefore-le cs f g le h.1)

NoEvidence-NoneBefore : (cs : List FrozenChannelDecision) (f : ℕ) → NoEvidence cs → NoneBefore f cs
NoEvidence-NoneBefore [] f h = tt
NoEvidence-NoneBefore (c ∷ cs) f h =
    ((λ other r e. let n = h.0 r in absurd cc), NoEvidence-NoneBefore cs f h.1)

retained_cases :
    (d : ChannelDisposition) (e : Option ℕ)
    → ((retained_evidence d e ≡ none) × (d ≡ retain → e ≡ none))
      ⊎ ((f : ℕ) × (retained_evidence d e ≡ some f) × (d ≡ retain) × (e ≡ some f))
retained_cases retain none = inl (refl, λ _. refl)
retained_cases retain (some f) = inr (f, refl, refl, refl)
retained_cases omit e = inl (refl, λ h. absurd cc)

-- `first_evidence` is the earliest evidence, if there is one.
pub first_evidence_lem :
    (cs : List FrozenChannelDecision)
    → (NoEvidence cs × (first_evidence cs ≡ none))
      ⊎ ((f : ℕ) × HasEvidence f cs × NoneBefore f cs × (first_evidence cs ≡ some f))
unfolding first_evidence
first_evidence_lem [] = inl (tt, refl)
first_evidence_lem (c ∷ cs) =
    let rest = first_evidence_lem cs in
    elim (retained_cases c.disposition c.first_evidence_frame) [
      | inl (e, n) ↦ elim rest [
        | inl (bare, r) ↦ inl ((n, bare), rw (first_evidence, e, r) refl)
        | inr (g, has, before, r) ↦ inr (
          g,
          inr has,
          ((λ other p q. let z = n p in absurd cc), before),
          rw (first_evidence, e, r) refl,
        )
      ]
      | inr (f, e, kept, at) ↦ elim rest [
        | inl (bare, r) ↦ inr (
          f,
          inl (kept, at),
          (
            (λ other p q. let i : f ≡ other = cc in omega (arith, i)),
            NoEvidence-NoneBefore cs f bare,
          ),
          rw (first_evidence, e, r) refl,
        )
        | inr (g, has, before, r) ↦ elim (lt-or-le g f) [
          | inl lt ↦ inr (
            g,
            inr has,
            ((λ other p q. let i : f ≡ other = cc in omega (arith, i, lt)), before),
            rw (first_evidence, e, r) (ap some (omega (arith, lt))),
          )
          | inr le ↦ inr (
            f,
            inl (kept, at),
            (
              (λ other p q. let i : f ≡ other = cc in omega (arith, i)),
              NoneBefore-le cs f g le before,
            ),
            rw (first_evidence, e, r) (ap some (omega (arith, le))),
          )
        ]
      ]
    ]

pub export_start_of_lem :
    (trim : Bool) (sample_rate frozen_start : ℕ) (cs : List FrozenChannelDecision)
    → StartsAt trim sample_rate frozen_start cs
        (export_start_of trim sample_rate frozen_start (first_evidence cs))
unfolding export_start_of
export_start_of_lem false sample_rate frozen_start cs = inl (refl, refl)
export_start_of_lem true sample_rate frozen_start cs = elim (first_evidence_lem cs) [
  | inl (bare, e) ↦ inr (inl (refl, bare, rw (e) (omega arith)))
  | inr (f, has, before, e) ↦ inr (inr (refl, (f, has, before, rw (e) refl)))
]
