-- ===== src/Ml/Threats/Honesty.antt =====
-- A named class comes of one profile alone.
use rfmesh_workspace.Base.{
  or_false, ℕ, ◌≡◌, ◌≢◌, refl, sym, ap, ◌∙◌, List, [], ◌∷◌, ◌++◌, true, false, ◌&&◌, All,
  Bool-cases, inl, inr,
}
use rfmesh_workspace.Fusion.Bearings.{EmitterClass, unknown}
use rfmesh_workspace.Ml.Threats.{
  ClassificationResult, ThreatProfile, ModulationLabel, unknown_label, same_label, is_match,
  matches, only_match, stub_overlaps, has_freq_overlap, enrich_to_emitter_class,
}

-- One profile of the library matches, and the others do not.
unfoldable pub IsOnlyMatch : ClassificationResult → ℕ → List ThreatProfile → ThreatProfile → Type 0
IsOnlyMatch m freq library p =
    (front back : List ThreatProfile) × (library ≡ front ++ (p ∷ back))
    × (is_match m freq p ≡ true)
    × All (λ q. is_match m freq q ≡ false) front
    × All (λ q. is_match m freq q ≡ false) back

no_matches :
    (library : List ThreatProfile) (m : ClassificationResult) (freq : ℕ)
    → matches library m freq ≡ []
    → All (λ q. is_match m freq q ≡ false) library
unfolding matches
no_matches [] m freq h = tt
no_matches (p ∷ library) m freq h = elim (Bool-cases (is_match m freq p)) [
  | inl here ↦
      let some_match : matches (p ∷ library) m freq ≡ p.emitter_class ∷ matches library m freq =
        rw (here) refl in
      absurd (cc)
  | inr absent ↦ (absent, no_matches library m freq (sym (rw (absent) refl) ∙ h))
]

one_match :
    (library : List ThreatProfile) (m : ClassificationResult) (freq : ℕ) (c : EmitterClass)
    → matches library m freq ≡ c ∷ []
    → (p : ThreatProfile) × (p.emitter_class ≡ c) × IsOnlyMatch m freq library p
unfolding matches IsOnlyMatch
one_match [] m freq c h = cc
one_match (p ∷ library) m freq c h = elim (Bool-cases (is_match m freq p)) [
  | inl here ↦
      let first : matches (p ∷ library) m freq ≡ p.emitter_class ∷ matches library m freq =
        rw (here) refl in
      let rest : matches library m freq ≡ [] = cc in
      (p, cc, ([], library, refl, here, tt, no_matches library m freq rest))
  | inr absent ↦
      let later = one_match library m freq c (sym (rw (absent) refl) ∙ h) in
      (
        later.0,
        later.1,
        (
          p ∷ later.2.0,
          later.2.1,
          ap (λ t. p ∷ t) later.2.2,
          later.2.3,
          (absent, later.2.4),
          later.2.5,
        ),
      )
]

no_stub_overlaps :
    (library : List ThreatProfile) (label : ModulationLabel) (freq : ℕ)
    → stub_overlaps library label freq ≡ false
    → All (λ q. (q.stub && has_freq_overlap q.match_rules label freq) ≡ false) library
unfolding stub_overlaps
no_stub_overlaps [] label freq h = tt
no_stub_overlaps (p ∷ library) label freq h =
    let both =
      or_false (p.stub && has_freq_overlap p.match_rules label freq)
        (stub_overlaps library label freq) h in
    (both.0, no_stub_overlaps library label freq both.1)

only_match-known :
    (cs : List EmitterClass) (c : EmitterClass) → only_match cs ≡ c → c ≢ unknown → cs ≡ c ∷ []
only_match-known [] c h named = absurd (named (sym h))
only_match-known (d ∷ []) c h named = ap (λ t. t ∷ []) h
only_match-known (d ∷ e ∷ cs) c h named = absurd (named (sym h))

-- A class other than unknown is that of the only profile that is no stub and whose rules match, with the
-- confidence that the classifier gave; then no stub covers the frequency for this modulation, and the
-- modulation is known.
pub enrich_to_emitter_class_named :
    (library : List ThreatProfile) (m : ClassificationResult) (freq : ℕ) {c : EmitterClass}
    {confidence : ℕ}
    → enrich_to_emitter_class library m freq ≡ (c, confidence)
    → c ≢ unknown
    → (p : ThreatProfile) × (p.emitter_class ≡ c)
      × (confidence ≡ m.confidence)
      × IsOnlyMatch m freq library p
      × All
          (λ q. (q.stub && has_freq_overlap q.match_rules m.modulation_class freq) ≡ false)
          library
      × (m.modulation_class ≢ unknown_label)
unfolding enrich_to_emitter_class
enrich_to_emitter_class_named library m freq h named =
    elim (Bool-cases (same_label m.modulation_class unknown_label)) [
      | inl unsure ↦
          let given : enrich_to_emitter_class library m freq ≡ (unknown, m.confidence) =
            rw (unsure) refl in
          absurd (named (sym (ap (λ t. t.0) h) ∙ ap (λ t. t.0) given))
      | inr sure ↦ elim (Bool-cases (stub_overlaps library m.modulation_class freq)) [
        | inl stubbed ↦
            let given : enrich_to_emitter_class library m freq ≡ (unknown, 0) =
              rw (sure, stubbed) refl in
            absurd (named (sym (ap (λ t. t.0) h) ∙ ap (λ t. t.0) given))
        | inr clear ↦
            let given : enrich_to_emitter_class library m freq
                ≡ (only_match (matches library m freq), m.confidence) =
              rw (sure, clear) refl in
            let answer = sym given ∙ h in
            let one =
              one_match library m freq _ (only_match-known _ _ (ap (λ t. t.0) answer) named) in
            (
              one.0,
              one.1,
              sym (ap (λ t. t.1) answer),
              one.2,
              no_stub_overlaps library m.modulation_class freq clear,
              λ same. absurd (cc (ap (λ t. same_label t unknown_label) same)),
            )
      ]
    ]

matches_none :
    (m : ClassificationResult) (freq : ℕ) (library : List ThreatProfile)
    → All (λ q. is_match m freq q ≡ false) library
    → matches library m freq ≡ []
unfolding matches
matches_none m freq [] absent = refl
matches_none m freq (q ∷ library) absent = rw (absent.0) (matches_none m freq library absent.1)

matches_around :
    (m : ClassificationResult) (freq : ℕ) (front : List ThreatProfile) (p : ThreatProfile)
    (back : List ThreatProfile)
    → is_match m freq p ≡ true
    → All (λ q. is_match m freq q ≡ false) front
    → All (λ q. is_match m freq q ≡ false) back
    → matches (front ++ (p ∷ back)) m freq ≡ p.emitter_class ∷ []
unfolding matches
matches_around m freq [] p back here before behind =
    rw (here) (ap (λ t. p.emitter_class ∷ t) (matches_none m freq back behind))
matches_around m freq (q ∷ front) p back here before behind =
    rw (before.0) (matches_around m freq front p back here before.1 behind)

-- Conversely, where the modulation is known and no stub covers the frequency, the only match is the answer.
pub enrich_to_emitter_class-IsOnlyMatch :
    (library : List ThreatProfile) (m : ClassificationResult) (freq : ℕ) (p : ThreatProfile)
    → same_label m.modulation_class unknown_label ≡ false
    → stub_overlaps library m.modulation_class freq ≡ false
    → IsOnlyMatch m freq library p
    → enrich_to_emitter_class library m freq ≡ (p.emitter_class, m.confidence)
unfolding enrich_to_emitter_class IsOnlyMatch
enrich_to_emitter_class-IsOnlyMatch library m freq p known clear only =
    rw (known, clear)
      (ap (λ cs. (only_match cs, m.confidence))
        (ap (λ t. matches t m freq) only.2
          ∙ matches_around m freq only.0 p only.1 only.3 only.4 only.5))
