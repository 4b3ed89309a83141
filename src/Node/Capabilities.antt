-- ===== src/Node/Capabilities.antt =====
-- packages/rfmesh-node/src/rfmesh_node/capabilities.py, and `_build_pipeline` of node.py: what the
-- receiver can do of what the configuration declares, and the estimators built for it.
pub mod Boot
use rfmesh_workspace.Base.{
  ℕ, List, [], ◌∷◌, ◌++◌, Option, none, some, Bool, true, false, not, ltb, ◌==◌, length,
}
use rfmesh_workspace.Base.Results.{Try, ok, err, refuse, ◌>>◌, ◌>>=◌}
use rfmesh_workspace.Fusion.Bearings.{
  Capability, l1_rssi, l2_music, l2_capon, l2_mvdr_null, l3_classify, l1_refused_prominence,
  comms_dsss,
}
use rfmesh_workspace.Node.Config.{ArrayConfig, NodeConfig, is_set, is_l2}

-- A live receiver. `is_calibrated` is of a coherent one only; a plain receiver has none.
pub record Receiver : Type 0 where
  pub n_coherent_channels : ℕ
  pub is_calibrated : Option Bool

-- The messages of `CapabilityMismatchError`, each with the capability that it names.
pub data MismatchError : Type 0 where
  none_declared : MismatchError
  not_coherent too_few_channels no_array not_calibrated : Capability → MismatchError
  array_unset receiver_plain : Capability → MismatchError

abbrev pub is_coherent : Receiver → Bool
is_coherent r = is_set r.is_calibrated

-- `coherent_recv.is_calibrated`, read behind the test for a coherent receiver.
abbrev pub calibrated : Option Bool → Bool
calibrated none = false
calibrated (some b) = b

abbrev pub min_coherent_channels_for_l2 : ℕ
min_coherent_channels_for_l2 = 2

-- The tests of one declared capability, in their order.
abbrev pub check_l2 : Capability → Receiver → Option ArrayConfig → Try MismatchError (Unit {0})
check_l2 c r array = do
  refuse (not (is_coherent r)) (not_coherent c)
  refuse (ltb r.n_coherent_channels min_coherent_channels_for_l2) (too_few_channels c)
  refuse (not (is_set array)) (no_array c)
  refuse (not (calibrated r.is_calibrated)) (not_calibrated c)

abbrev pub check_when :
    Bool → Capability → Receiver → Option ArrayConfig → Try MismatchError (Unit {0})
check_when true c r array = check_l2 c r array
check_when false c r array = ok tt

abbrev pub check_each :
    List Capability → Receiver → Option ArrayConfig → Try MismatchError (Unit {0})
check_each [] r array = ok tt
check_each (c ∷ cs) r array = do check_when (is_l2 c) c r array; check_each cs r array

unfoldable pub detect_active_capabilities :
    List Capability → Receiver → Option ArrayConfig → Try MismatchError (List Capability)
detect_active_capabilities declared r array = do
  refuse (length declared == 0) none_declared
  check_each declared r array
  ok declared

-- An estimator with the arguments it is constructed with.
pub data Estimator (P : Type 0) : Type 0 where
  l1_amplitude_sweep : List ℕ → P → ℕ → Estimator P
  l2_music_estimator : List ℕ → P → Receiver → ArrayConfig → ℕ → Estimator P
  l2_mvdr_estimator : List ℕ → P → Receiver → ArrayConfig → ℕ → Estimator P

-- The members of `_ESTIMATOR_CAPABILITIES`.
abbrev pub is_estimator : Capability → Bool
is_estimator l1_rssi = true
is_estimator l2_music = true
is_estimator l2_capon = true
is_estimator l2_mvdr_null = false
is_estimator l3_classify = false
is_estimator l1_refused_prominence = false
is_estimator comms_dsss = false

abbrev pub sweep_dwell_samples : ℕ
sweep_dwell_samples = 1024

module _ {P : Type 0} where
  -- The last branches of the loop's body, with the array at hand.
  abbrev pub build_l2 : Capability → NodeConfig P → Receiver → ArrayConfig → List (Estimator P)
  build_l2 l2_music c r a = l2_music_estimator c.node_id c.position r a c.center_freq ∷ []
  build_l2 l2_capon c r a = l2_mvdr_estimator c.node_id c.position r a c.center_freq ∷ []
  build_l2 _ c r a = []

  abbrev pub build_from_array :
      Option ArrayConfig
      → Capability
      → NodeConfig P
      → Receiver
      → Try MismatchError (List (Estimator P))
  build_from_array none k c r = err (array_unset k)
  build_from_array (some a) k c r = do
    refuse (not (is_coherent r)) (receiver_plain k)
    ok (build_l2 k c r a)

  abbrev pub build_estimator :
      Capability → NodeConfig P → Receiver → Try MismatchError (List (Estimator P))
  build_estimator l1_rssi c r =
      ok (l1_amplitude_sweep c.node_id c.position sweep_dwell_samples ∷ [])
  build_estimator k c r = build_from_array c.array k c r

  -- One turn of the loop.
  abbrev pub build_when :
      Bool → Capability → NodeConfig P → Receiver → Try MismatchError (List (Estimator P))
  build_when false k c r = ok []
  build_when true k c r = build_estimator k c r

  unfoldable pub build_estimators :
      List Capability → NodeConfig P → Receiver → Try MismatchError (List (Estimator P))
  build_estimators [] c r = ok []
  build_estimators (k ∷ active) c r = do
    built ← build_when (is_estimator k) k c r
    rest ← build_estimators active c r
    ok (built ++ rest)

  -- `Node._build_pipeline`
  unfoldable pub build_pipeline :
      NodeConfig P → Receiver → Try MismatchError (List Capability × List (Estimator P))
  unfolding detect_active_capabilities
  build_pipeline c r = do
    active ← detect_active_capabilities c.capabilities r c.array
    estimators ← build_estimators active c r
    ok (active, estimators)
