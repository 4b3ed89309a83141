-- ===== src/Ml/Threats.antt =====
-- packages/rfmesh-ml/src/rfmesh_ml/threats: profile.py, the profiles and their loading, and __init__.py, the
-- class of an emitter by the profiles. A frequency counts in hertz and a confidence in millionths; text
-- is a list of characters. The files come in the order of their names.
pub mod Honesty
pub mod Loading
use mathlib.Core.Logic.{ite}
use rfmesh_workspace.Base.{
  ℕ, ◌*◌, List, [], ◌∷◌, ◌++◌, Bool, true, false, not, ◌&&◌, ◌||◌, ltb, leb, ◌==◌, length,
  if◌then◌else◌,
}
use rfmesh_workspace.Base.Results.{Try, ok, err, refuse, ◌>>◌, ◌>>=◌}
use rfmesh_workspace.Fusion.Bearings.{EmitterClass, unknown}
use rfmesh_workspace.Fusion.Consensus.{EmitterClass-discrete}

pub data ModulationLabel : Type 0 where
  cw fhss fsk lora unknown_label : ModulationLabel

pub record ClassificationResult : Type 0 where
  pub modulation_class : ModulationLabel
  pub confidence : ℕ

pub record MatchRule : Type 0 where
  pub modulation_class : ModulationLabel
  pub low : ℕ
  pub high : ℕ
  pub min_confidence : ℕ

pub record ThreatProfile : Type 0 where
  pub emitter_class : EmitterClass
  pub human_name : List ℕ
  pub references : List (List ℕ)
  pub match_rules : List MatchRule
  pub stub : Bool
  pub stub_reason : List ℕ

-- A file that is no YAML, that is no mapping, or a mapping with the fields of a profile.
pub data ProfileFile : Type 0 where
  no_yaml no_mapping : ProfileFile
  mapping : ThreatProfile → ProfileFile

pub data ThreatProfileError : Type 0 where
  malformed_yaml not_a_mapping schema_violation duplicate_class : ThreatProfileError

abbrev pub same_label : ModulationLabel → ModulationLabel → Bool
same_label cw cw = true
same_label fhss fhss = true
same_label fsk fsk = true
same_label lora lora = true
same_label unknown_label unknown_label = true
same_label _ _ = false

abbrev pub same_class : EmitterClass → EmitterClass → Bool
same_class a b = ite (EmitterClass-discrete a b) true false

-- The range of `min_confidence`, and `_validate_freq_band`.
unfoldable pub validate_rule : MatchRule → Try ThreatProfileError (Unit {0})
validate_rule r = do
  refuse (ltb 1000000 r.min_confidence) schema_violation
  refuse (r.low == 0 || r.high == 0) schema_violation
  refuse (leb r.high r.low) schema_violation

unfoldable pub validate_rules : List MatchRule → Try ThreatProfileError (Unit {0})
validate_rules [] = ok tt
validate_rules (r ∷ rules) = do validate_rule r; validate_rules rules

-- `_validate_class_and_stub`, with `str.strip` given.
abbrev pub validate_stub :
    Bool → (List ℕ → List ℕ) → ThreatProfile → Try ThreatProfileError (Unit {0})
validate_stub true strip p = refuse (length (strip p.stub_reason) == 0) schema_violation
validate_stub false strip p = do
  refuse (not (length p.stub_reason == 0)) schema_violation
  refuse (length p.match_rules == 0) schema_violation
  refuse (length p.references == 0) schema_violation

unfoldable pub validate_profile :
    (List ℕ → List ℕ) → ThreatProfile → Try ThreatProfileError (Unit {0})
validate_profile strip p = do
  refuse (length p.human_name == 0) schema_violation
  validate_rules p.match_rules
  refuse (same_class p.emitter_class unknown) schema_violation
  validate_stub p.stub strip p

abbrev pub declares : EmitterClass → List ThreatProfile → Bool
declares c [] = false
declares c (p ∷ library) = same_class c p.emitter_class || declares c library

-- One turn of the loop over the files. The dict's values are kept, as each has its own class for key.
unfoldable pub load_file :
    (List ℕ → List ℕ)
    → ProfileFile
    → List ThreatProfile
    → Try ThreatProfileError (List ThreatProfile)
load_file strip no_yaml library = err malformed_yaml
load_file strip no_mapping library = err not_a_mapping
load_file strip (mapping p) library = do
  validate_profile strip p
  refuse (declares p.emitter_class library) duplicate_class
  ok (library ++ (p ∷ []))

unfoldable pub load_from :
    (List ℕ → List ℕ)
    → List ProfileFile
    → List ThreatProfile
    → Try ThreatProfileError (List ThreatProfile)
load_from strip [] library = ok library
load_from strip (file ∷ files) library = do
  next ← load_file strip file library
  load_from strip files next

unfoldable pub load_profile_library :
    (List ℕ → List ℕ) → List ProfileFile → Try ThreatProfileError (List ThreatProfile)
load_profile_library strip files = load_from strip files []

abbrev pub covers : MatchRule → ModulationLabel → ℕ → Bool
covers r label freq = same_label r.modulation_class label && leb r.low freq && leb freq r.high

unfoldable pub rule_matches : MatchRule → ModulationLabel → ℕ → ℕ → Bool
rule_matches r label freq confidence = covers r label freq && leb r.min_confidence confidence

unfoldable pub has_freq_overlap : List MatchRule → ModulationLabel → ℕ → Bool
has_freq_overlap [] label freq = false
has_freq_overlap (r ∷ rules) label freq = covers r label freq || has_freq_overlap rules label freq

unfoldable pub any_rule_matches : List MatchRule → ModulationLabel → ℕ → ℕ → Bool
any_rule_matches [] label freq confidence = false
any_rule_matches (r ∷ rules) label freq confidence =
    rule_matches r label freq confidence || any_rule_matches rules label freq confidence

-- The first pass of `enrich_to_emitter_class`.
unfoldable pub stub_overlaps : List ThreatProfile → ModulationLabel → ℕ → Bool
stub_overlaps [] label freq = false
stub_overlaps (p ∷ library) label freq =
    (p.stub && has_freq_overlap p.match_rules label freq) || stub_overlaps library label freq

-- The second pass.
abbrev pub is_match : ClassificationResult → ℕ → ThreatProfile → Bool
is_match m freq p =
    not p.stub && any_rule_matches p.match_rules m.modulation_class freq m.confidence

unfoldable pub matches : List ThreatProfile → ClassificationResult → ℕ → List EmitterClass
matches [] m freq = []
matches (p ∷ library) m freq =
    let rest = matches library m freq in if is_match m freq p then p.emitter_class ∷ rest else rest

abbrev pub only_match : List EmitterClass → EmitterClass
only_match [] = unknown
only_match (c ∷ []) = c
only_match (c ∷ d ∷ cs) = unknown

unfoldable pub enrich_to_emitter_class :
    List ThreatProfile → ClassificationResult → ℕ → EmitterClass × ℕ
enrich_to_emitter_class library m freq =
    if same_label m.modulation_class unknown_label
    then (unknown, m.confidence)
    else if stub_overlaps library m.modulation_class freq
    then (unknown, 0)
    else (only_match (matches library m freq), m.confidence)
