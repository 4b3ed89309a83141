-- ===== src/Node/Capabilities/Boot.antt =====
-- A node with a valid configuration starts unless its receiver is short of an L2 capability.
use mathlib.Core.List.{map-append}
use rfmesh_workspace.Base.{
  ◌≤◌, ◌≡◌, refl, sym, ap, ◌∙◌, List, [], ◌∷◌, ◌++◌, map, Option, none, some, Bool, true, false,
  not, ◌==◌, ltb, length, All, arith, Bool-cases, inl, inr, if◌then◌else◌,
}
use rfmesh_workspace.Base.Dict.Members.{IsAmong}
use rfmesh_workspace.Base.Results.{ok, err, refuse, ◌>>◌}
use rfmesh_workspace.Fusion.Bearings.{
  Capability, l1_rssi, l2_music, l2_capon, l2_mvdr_null, l3_classify, l1_refused_prominence,
  comms_dsss,
}
use rfmesh_workspace.Node.Config.{ArrayConfig, NodeConfig, is_set, is_l2, any, declares_l2}
use rfmesh_workspace.Node.Config.Validity.{IsValid, IsValid-is_set}
use rfmesh_workspace.Node.Capabilities.{
  Receiver, MismatchError, no_array, not_coherent, too_few_channels, not_calibrated, is_coherent,
  calibrated, check_l2, check_when, check_each, detect_active_capabilities, Estimator,
  l1_amplitude_sweep, l2_music_estimator, l2_mvdr_estimator, is_estimator, build_when,
  build_estimators, build_pipeline,
}

-- What any L2 capability asks of the receiver.
unfoldable pub IsReady : Receiver → Type 0
IsReady r =
    (is_coherent r ≡ true) × (2 ≤ r.n_coherent_channels) × (calibrated r.is_calibrated ≡ true)

-- The first reason for which a receiver cannot do an L2 capability.
unfoldable pub shortfall : Receiver → Option (Capability → MismatchError)
shortfall r =
    if not (is_coherent r)
    then some not_coherent
    else if ltb r.n_coherent_channels 2
    then some too_few_channels
    else if not (calibrated r.is_calibrated)
    then some not_calibrated
    else none

abbrev first_from : Bool → Capability → Option Capability → Option Capability
first_from true c rest = some c
first_from false c rest = rest

unfoldable pub first_l2 : List Capability → Option Capability
first_l2 [] = none
first_l2 (c ∷ cs) = first_from (is_l2 c) c (first_l2 cs)

unfoldable pub method : {P : Type 0} → Estimator P → Capability
method (l1_amplitude_sweep n p d) = l1_rssi
method (l2_music_estimator n p r a f) = l2_music
method (l2_mvdr_estimator n p r a f) = l2_capon

abbrev keep_when : Bool → Capability → List Capability → List Capability
keep_when true c cs = c ∷ cs
keep_when false c cs = cs

unfoldable pub estimator_capabilities : List Capability → List Capability
estimator_capabilities [] = []
estimator_capabilities (c ∷ cs) = keep_when (is_estimator c) c (estimator_capabilities cs)

-- What detection and building need of the receiver and the array, for one capability.
Meets : Receiver → Option ArrayConfig → Capability → Type 0
Meets r array k = is_l2 k ≡ true → IsReady r × (is_set array ≡ true)

check_when-ok :
    (b : Bool) (k : Capability) (r : Receiver) (array : Option ArrayConfig)
    → (b ≡ true → IsReady r × (is_set array ≡ true))
    → check_when b k r array ≡ ok tt
unfolding IsReady
check_when-ok false k r array m = refl
check_when-ok true k r array m =
    let ready = (m refl).0 in
    let enough : ltb r.n_coherent_channels 2 ≡ false = ground (arith, ready.1) in
    rw (ready.0, enough, (m refl).1, ready.2) refl

check_each-ok :
    (ks : List Capability) (r : Receiver) (array : Option ArrayConfig)
    → All (Meets r array) ks
    → check_each ks r array ≡ ok tt
unfolding Meets
check_each-ok [] r array m = refl
check_each-ok (k ∷ ks) r array m =
    rw (check_when-ok (is_l2 k) k r array m.0) (check_each-ok ks r array m.1)

All-Meets :
    (ks : List Capability) (r : Receiver) (array : Option ArrayConfig)
    → (any is_l2 ks ≡ true → IsReady r × (is_set array ≡ true))
    → All (Meets r array) ks
unfolding Meets
All-Meets [] r array h = tt
All-Meets (k ∷ ks) r array h = (
  λ here. h (rw (here) refl),
  All-Meets ks r array (λ there.
      h (elim (Bool-cases (is_l2 k)) [ inl l2 ↦ rw (l2) refl | inr other ↦ rw (other) there ])),
)

set_array : (o : Option ArrayConfig) → is_set o ≡ true → (a : ArrayConfig) × (o ≡ some a)
set_array none h = cc
set_array (some a) h = (a, refl)

module _ {P : Type 0} where
  -- One turn of the loop adds one estimator for an estimator capability, and none else.
  build_when-method :
      (k : Capability) (c : NodeConfig P) (r : Receiver)
      → Meets r c.array k
      → (es : List (Estimator P)) × (build_when (is_estimator k) k c r ≡ ok es)
        × ((rest : List Capability) → map method es ++ rest ≡ keep_when (is_estimator k) k rest)
  unfolding Meets IsReady method
  build_when-method l1_rssi c r m = (_, refl, λ rest. refl)
  build_when-method l2_music c r m =
      let array = set_array c.array (m refl).1 in
      (
        l2_music_estimator c.node_id c.position r array.0 c.center_freq ∷ [],
        rw (array.1, (m refl).0.0) refl,
        λ rest. refl,
      )
  build_when-method l2_capon c r m =
      let array = set_array c.array (m refl).1 in
      (
        l2_mvdr_estimator c.node_id c.position r array.0 c.center_freq ∷ [],
        rw (array.1, (m refl).0.0) refl,
        λ rest. refl,
      )
  build_when-method l2_mvdr_null c r m = ([], refl, λ rest. refl)
  build_when-method l3_classify c r m = ([], refl, λ rest. refl)
  build_when-method l1_refused_prominence c r m = ([], refl, λ rest. refl)
  build_when-method comms_dsss c r m = ([], refl, λ rest. refl)

  build_estimators-method :
      (ks : List Capability) (c : NodeConfig P) (r : Receiver)
      → All (Meets r c.array) ks
      → (es : List (Estimator P)) × (build_estimators ks c r ≡ ok es)
        × (map method es ≡ estimator_capabilities ks)
  unfolding build_estimators estimator_capabilities
  build_estimators-method [] c r m = ([], refl, refl)
  build_estimators-method (k ∷ ks) c r m =
      let first = build_when-method k c r m.0 in
      let rest = build_estimators-method ks c r m.1 in
      (
        first.0 ++ rest.0,
        rw (first.1, rest.1) refl,
        map-append method first.0 rest.0
            ∙ ap (λ t. map method first.0 ++ t) rest.2
            ∙ first.2 (estimator_capabilities ks),
      )

  build_pipeline-starts :
      (c : NodeConfig P) (r : Receiver)
      → IsValid c
      → (declares_l2 c.capabilities ≡ true → IsReady r)
      → (es : List (Estimator P)) × (build_pipeline c r ≡ ok (c.capabilities, es))
        × (map method es ≡ estimator_capabilities c.capabilities)
  unfolding build_pipeline detect_active_capabilities
  build_pipeline-starts c r v ready =
      let meets = All-Meets c.capabilities r c.array (λ l2. (ready l2, IsValid-is_set c v ∙ l2)) in
      let built = build_estimators-method c.capabilities c r meets in
      let declared : (length c.capabilities == 0) ≡ false = ground (arith, v.declares) in
      (built.0, rw (declared, check_each-ok c.capabilities r c.array meets, built.1) refl, built.2)

  -- A node with a valid configuration without COMMS_DSSS, for which the documents ask more than the code
  -- tests, whose receiver is coherent, has two channels and is calibrated, or that declares no L2
  -- capability, starts with the declared capabilities in their order, and with one estimator for each of
  -- them that is an estimator's, in that order.
  pub build_pipeline-IsValid :
      (c : NodeConfig P) (r : Receiver)
      → IsValid c
      → ¬ IsAmong comms_dsss c.capabilities
      → (declares_l2 c.capabilities ≡ true → IsReady r)
      → (es : List (Estimator P)) × (build_pipeline c r ≡ ok (c.capabilities, es))
        × (map method es ≡ estimator_capabilities c.capabilities)
  build_pipeline-IsValid c r v no_comms ready = build_pipeline-starts c r v ready

first_l2-declares :
    (ks : List Capability) {k : Capability} → first_l2 ks ≡ some k → declares_l2 ks ≡ true
unfolding first_l2
first_l2-declares [] f = cc
first_l2-declares (j ∷ ks) f = elim (Bool-cases (is_l2 j)) [
  | inl l2 ↦ rw (l2) refl
  | inr other ↦ rw (other) (first_l2-declares ks (sym (rw (other) refl) ∙ f))
]

named : Option (Capability → MismatchError) → Capability → MismatchError
named none j = no_array j
named (some e) j = e j

-- The tests of the loop's body and those of `shortfall`, on the values that they read.
by_tests :
    (coherent few ready : Bool) (j : Capability) {e : Capability → MismatchError}
    → (if not coherent
        then some not_coherent
        else if few
        then some too_few_channels
        else if not ready
        then some not_calibrated
        else none)
      ≡ some e
    → (refuse (not coherent) (not_coherent j)
        >> (refuse few (too_few_channels j)
            >> (refuse false (no_array j) >> refuse (not ready) (not_calibrated j))))
      ≡ err (e j)
unfolding named
by_tests false few ready j s = ap (λ o. err (named o j)) s
by_tests true true ready j s = ap (λ o. err (named o j)) s
by_tests true false false j s = ap (λ o. err (named o j)) s
by_tests true false true j s = cc

check_l2-shortfall :
    (j : Capability) (r : Receiver) (array : Option ArrayConfig) {e : Capability → MismatchError}
    → is_set array ≡ true
    → shortfall r ≡ some e
    → check_l2 j r array ≡ err (e j)
unfolding shortfall
check_l2-shortfall j r array a s =
    rw (a) (by_tests (is_coherent r) (ltb r.n_coherent_channels 2) (calibrated r.is_calibrated) j s)

check_each-err :
    (ks : List Capability) (r : Receiver) (array : Option ArrayConfig) {k : Capability}
    {e : Capability → MismatchError}
    → is_set array ≡ true
    → first_l2 ks ≡ some k
    → shortfall r ≡ some e
    → check_each ks r array ≡ err (e k)
unfolding first_l2 shortfall
check_each-err [] r array a f s = cc
check_each-err (j ∷ ks) r array {k} {e} a f s = elim (Bool-cases (is_l2 j)) [
  | inl l2 ↦
      let head : first_l2 (j ∷ ks) ≡ some j = rw (l2) refl in
      let same : j ≡ k = cc in rw (l2, check_l2-shortfall j r array a s) (ap (λ t. err (e t)) same)
  | inr other ↦ rw (other) (check_each-err ks r array a (sym (rw (other) refl) ∙ f) s)
]

module _ {P : Type 0} where
  -- A node with a valid configuration whose receiver is short of what L2 needs refuses to start, with
  -- the reason and the first L2 capability declared; the errors on a missing array and the errors that
  -- the source calls unreachable do not occur.
  pub build_pipeline-shortfall :
      (c : NodeConfig P) (r : Receiver) {k : Capability} {e : Capability → MismatchError}
      → IsValid c
      → first_l2 c.capabilities ≡ some k
      → shortfall r ≡ some e
      → build_pipeline c r ≡ err (e k)
  unfolding build_pipeline detect_active_capabilities
  build_pipeline-shortfall c r v first short =
      let declared : (length c.capabilities == 0) ≡ false = ground (arith, v.declares) in
      let array = IsValid-is_set c v ∙ first_l2-declares c.capabilities first in
      rw (declared, check_each-err c.capabilities r c.array array first short) refl
