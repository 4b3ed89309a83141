-- ===== src/Ml/Threats/Loading.antt =====
-- What a loaded library satisfies.
use mathlib.Core.Path.{subst}
use mathlib.Core.Logic.{ite}
use rfmesh_workspace.Fusion.Consensus.{EmitterClass-discrete}
use rfmesh_workspace.Base.{
  or_false, ℕ, ◌+◌, ◌<◌, ◌≤◌, ◌≡◌, refl, sym, List, [], ◌∷◌, ◌++◌, Bool, true, false, not, ◌||◌,
  ltb, leb, ◌==◌, length, length-append, All, All-append, arith,
}
use rfmesh_workspace.Base.Results.{Try, ok, err, refuse, refuse-eq-ok, >>=-eq-ok, ◌>>◌}
use rfmesh_workspace.Fusion.Bearings.{EmitterClass, unknown}
use rfmesh_workspace.Ml.Threats.{
  MatchRule, ThreatProfile, ProfileFile, no_yaml, no_mapping, mapping, ThreatProfileError,
  same_class, validate_rule, validate_rules, validate_stub, validate_profile, declares, load_file,
  load_from, load_profile_library,
}

-- A band of positive width above zero.
unfoldable pub IsBand : MatchRule → Type 0
IsBand r = (0 < r.low) × (r.low < r.high) × (r.min_confidence ≤ 1000000)

-- A profile is of a named class and has bands for rules; one that is no stub has a rule and a reference.
unfoldable pub IsSound : ThreatProfile → Type 0
IsSound p =
    (same_class p.emitter_class unknown ≡ false)
    × All IsBand p.match_rules
    × (p.stub ≡ false → (0 < length p.match_rules) × (0 < length p.references))

-- No class is declared twice.
unfoldable pub IsDistinct : List ThreatProfile → Type 0
IsDistinct [] = Unit
IsDistinct (p ∷ library) = (declares p.emitter_class library ≡ false) × IsDistinct library

then-eq-ok :
    (first : Try ThreatProfileError (Unit {0})) {B : Type 0} (next : Try ThreatProfileError B)
    {b : B}
    → (first >> next) ≡ ok b
    → (first ≡ ok tt) × (next ≡ ok b)
then-eq-ok (err e) next h = cc
then-eq-ok (ok u) next h = (refl, h)

refused_false : (test : Bool) (e : ThreatProfileError) → refuse test e ≡ ok tt → test ≡ false
refused_false true e h = cc
refused_false false e h = refl

decided_sym :
    {a b : EmitterClass} (d : Dec (a ≡ b)) (e : Dec (b ≡ a))
    → ite d true false ≡ false
    → ite e true false ≡ false
decided_sym (yes same) (yes back) h = cc
decided_sym (no apart) (yes back) h = absurd (apart (sym back))
decided_sym (yes same) (no apart) h = cc
decided_sym (no apart) (no other) h = refl

same_class_sym : (a b : EmitterClass) → same_class a b ≡ false → same_class b a ≡ false
same_class_sym a b h = decided_sym (EmitterClass-discrete a b) (EmitterClass-discrete b a) h

validate_rule-IsBand : (r : MatchRule) → validate_rule r ≡ ok tt → IsBand r
unfolding validate_rule IsBand
validate_rule-IsBand r h =
    let confident = refuse-eq-ok (ltb 1000000 r.min_confidence) _ _ h in
    let positive = refuse-eq-ok (r.low == 0 || r.high == 0) _ _ confident.1 in
    let ends = or_false (r.low == 0) (r.high == 0) positive.0 in
    let wide : leb r.high r.low ≡ false = refused_false _ _ positive.1 in
    (ground (arith, ends.0), ground (arith, wide), ground (arith, confident.0))

validate_rules-IsBand : (rules : List MatchRule) → validate_rules rules ≡ ok tt → All IsBand rules
unfolding validate_rules
validate_rules-IsBand [] h = tt
validate_rules-IsBand (r ∷ rules) h =
    let both = then-eq-ok (validate_rule r) _ h in
    (validate_rule-IsBand r both.0, validate_rules-IsBand rules both.1)

validate_stub-IsSound :
    (stub : Bool) (strip : List ℕ → List ℕ) (p : ThreatProfile)
    → validate_stub stub strip p ≡ ok tt
    → stub ≡ false
    → (0 < length p.match_rules) × (0 < length p.references)
validate_stub-IsSound true strip p h e = cc
validate_stub-IsSound false strip p h e =
    let reason = refuse-eq-ok (not (length p.stub_reason == 0)) _ _ h in
    let ruled = refuse-eq-ok (length p.match_rules == 0) _ _ reason.1 in
    let cited : (length p.references == 0) ≡ false = refused_false _ _ ruled.1 in
    (ground (arith, ruled.0), ground (arith, cited))

validate_profile-IsSound :
    (strip : List ℕ → List ℕ) (p : ThreatProfile) → validate_profile strip p ≡ ok tt → IsSound p
unfolding validate_profile IsSound
validate_profile-IsSound strip p h =
    let named = refuse-eq-ok (length p.human_name == 0) _ _ h in
    let rules = then-eq-ok (validate_rules p.match_rules) _ named.1 in
    let known = refuse-eq-ok (same_class p.emitter_class unknown) _ _ rules.1 in
    (
      known.0,
      validate_rules-IsBand p.match_rules rules.0,
      validate_stub-IsSound p.stub strip p known.1,
    )

-- A class that differs from all before it goes behind them.
declares-append :
    (c : EmitterClass) (library : List ThreatProfile) (p : ThreatProfile)
    → declares c library ≡ false
    → same_class c p.emitter_class ≡ false
    → declares c (library ++ (p ∷ [])) ≡ false
declares-append c [] p h differs = rw (differs) refl
declares-append c (q ∷ library) p h differs =
    let both = or_false (same_class c q.emitter_class) (declares c library) h in
    rw (both.0) (declares-append c library p both.1 differs)

append-IsDistinct :
    (library : List ThreatProfile) (p : ThreatProfile)
    → IsDistinct library
    → declares p.emitter_class library ≡ false
    → IsDistinct (library ++ (p ∷ []))
unfolding IsDistinct
append-IsDistinct [] p distinct fresh = (refl, tt)
append-IsDistinct (q ∷ library) p distinct fresh =
    let both =
      or_false (same_class p.emitter_class q.emitter_class) (declares p.emitter_class library)
        fresh in
    (
      declares-append q.emitter_class library p distinct.0
          (same_class_sym p.emitter_class q.emitter_class both.0),
      append-IsDistinct library p distinct.1 both.1,
    )

load_file-IsSound :
    (strip : List ℕ → List ℕ) (file : ProfileFile) (library : List ThreatProfile)
    {next : List ThreatProfile}
    → load_file strip file library ≡ ok next
    → All IsSound library
    → IsDistinct library
    → All IsSound next × IsDistinct next × (length next ≡ length library + 1)
unfolding load_file
load_file-IsSound strip no_yaml library h sound distinct = cc
load_file-IsSound strip no_mapping library h sound distinct = cc
load_file-IsSound strip (mapping p) library {next} h sound distinct =
    let valid = then-eq-ok (validate_profile strip p) _ h in
    let fresh = refuse-eq-ok (declares p.emitter_class library) _ _ valid.1 in
    let grown : library ++ (p ∷ []) ≡ next = cc in
    subst (λ t. All IsSound t × IsDistinct t × (length t ≡ length library + 1)) grown
      (
        All-append IsSound library (p ∷ []) sound (validate_profile-IsSound strip p valid.0, tt),
        append-IsDistinct library p distinct fresh.0,
        length-append library (p ∷ []),
      )

load_from-IsSound :
    (strip : List ℕ → List ℕ) (files : List ProfileFile) (library : List ThreatProfile)
    {loaded : List ThreatProfile}
    → load_from strip files library ≡ ok loaded
    → All IsSound library
    → IsDistinct library
    → All IsSound loaded × IsDistinct loaded × (length loaded ≡ length library + length files)
unfolding load_from
load_from-IsSound strip [] library {loaded} h sound distinct =
    let same : library ≡ loaded = cc in
    subst (λ t. All IsSound t × IsDistinct t × (length t ≡ length library + 0)) same
      (sound, distinct, omega arith)
load_from-IsSound strip (file ∷ files) library h sound distinct =
    let first = >>=-eq-ok (load_file strip file library) _ h in
    let here = load_file-IsSound strip file library first.1 sound distinct in
    let rest = load_from-IsSound strip files first.0 first.2 here.0 here.1 in
    (rest.0, rest.1, omega (arith, rest.2, here.2))

-- A library that loads has a profile for each file, each of a named class of its own, with bands of
-- positive width for rules, and with a rule and a reference unless it is a stub.
pub load_profile_library-IsSound :
    (strip : List ℕ → List ℕ) (files : List ProfileFile) {library : List ThreatProfile}
    → load_profile_library strip files ≡ ok library
    → All IsSound library × IsDistinct library × (length library ≡ length files)
unfolding load_profile_library IsDistinct
load_profile_library-IsSound strip files h =
    let loaded = load_from-IsSound strip files [] h tt tt in
    (loaded.0, loaded.1, omega (arith, loaded.2))
