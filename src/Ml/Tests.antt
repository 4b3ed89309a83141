-- ===== src/Ml/Tests.antt =====
-- Profiles at concrete inputs.
use rfmesh_workspace.Base.{ℕ, ◌≡◌, ◌≢◌, refl, List, [], ◌∷◌, ◌&&◌, true, false, All, length}
use rfmesh_workspace.Base.Results.{err}
use rfmesh_workspace.Fusion.Bearings.{EmitterClass, unknown, elrs, crossfire, droneid, pole21}
use rfmesh_workspace.Fusion.Consensus.{EmitterClass-discrete}
use rfmesh_workspace.Ml.Threats.{
  ModulationLabel, cw, fhss, lora, unknown_label, ClassificationResult, MatchRule, ThreatProfile,
  mapping, duplicate_class, load_profile_library, load_from, load_file, validate_profile,
  validate_rules, validate_rule, has_freq_overlap, any_rule_matches, rule_matches, stub_overlaps,
  matches, enrich_to_emitter_class,
}
use rfmesh_workspace.Ml.Threats.Honesty.{IsOnlyMatch, enrich_to_emitter_class_named}
use rfmesh_workspace.Ml.Threats.Loading.{IsSound, IsDistinct, load_profile_library-IsSound}

abbrev band : ModulationLabel → ℕ → ℕ → MatchRule
band label low high = record {
  modulation_class = label;
  low = low;
  high = high;
  min_confidence = 500000;
}

abbrev profile : EmitterClass → List MatchRule → ThreatProfile
profile c rules = record {
  emitter_class = c;
  human_name = 1 ∷ [];
  references = (1 ∷ []) ∷ [];
  match_rules = rules;
  stub = false;
  stub_reason = [];
}

abbrev drone : ThreatProfile
drone = profile droneid (band fhss 2400 2480 ∷ band fhss 5700 5800 ∷ [])

abbrev control : ThreatProfile
control = profile elrs (band lora 860 870 ∷ [])

abbrev jammer : ThreatProfile
jammer = record (profile pole21 (band cw 1500 1600 ∷ [])) { stub = true; stub_reason = 9 ∷ [] }

abbrev library : List ThreatProfile
library = drone ∷ control ∷ jammer ∷ []

abbrev heard : ModulationLabel → ClassificationResult
heard label = record { modulation_class = label; confidence = 800000 }

two_candidates :
    enrich_to_emitter_class (profile crossfire (band lora 860 930 ∷ []) ∷ library) (heard lora) 868
    ≡ (unknown, 800000)
unfolding enrich_to_emitter_class matches stub_overlaps has_freq_overlap any_rule_matches
    rule_matches
two_candidates = refl

stub_wins : enrich_to_emitter_class library (heard cw) 1575 ≡ (unknown, 0)
unfolding enrich_to_emitter_class stub_overlaps has_freq_overlap
stub_wins = refl

declared_twice :
    load_profile_library (λ text. text) (mapping drone ∷ mapping drone ∷ []) ≡ err duplicate_class
unfolding load_profile_library load_from load_file validate_profile validate_rules validate_rule
    EmitterClass-discrete
declared_twice = refl

enrich_to_emitter_class_named_example :
    (p : ThreatProfile) × (p.emitter_class ≡ droneid)
    × (800000 ≡ (heard fhss).confidence)
    × IsOnlyMatch (heard fhss) 2440 library p
    × All (λ q. (q.stub && has_freq_overlap q.match_rules fhss 2440) ≡ false) library
    × (fhss ≢ unknown_label)
unfolding enrich_to_emitter_class matches stub_overlaps has_freq_overlap any_rule_matches
    rule_matches
enrich_to_emitter_class_named_example =
    enrich_to_emitter_class_named library (heard fhss) 2440 refl (λ same. absurd (cc))

load_profile_library-IsSound_example :
    All IsSound library × IsDistinct library × (length library ≡ 3)
unfolding load_profile_library load_from load_file validate_profile validate_rules validate_rule
    EmitterClass-discrete
load_profile_library-IsSound_example =
    load_profile_library-IsSound (λ text. text)
      (mapping drone ∷ mapping control ∷ mapping jammer ∷ []) refl
