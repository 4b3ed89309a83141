-- ===== src/Node/Tests/Boot.antt =====
-- Configurations and receivers at concrete inputs.
use rfmesh_workspace.Base.{
  ◌↔◌, inl, inr, ℕ, ◌≡◌, refl, length, List, [], ◌∷◌, map, none, some, true, arith,
}
use rfmesh_workspace.Base.Int.{ℤ, pos}
use rfmesh_workspace.Base.Results.{ok, err}
use rfmesh_workspace.Fusion.Bearings.{l1_rssi, l2_capon, l2_mvdr_null, comms_dsss}
use rfmesh_workspace.Node.Config.{
  out_of_range, geometry_consistency, capabilities_consistency, is_oriented, ArrayConfig, uca,
  custom, wifi, NodeConfig, make_array, make_node_config, has_spacing, count_differs, needs_heading,
}
use rfmesh_workspace.Dsss.Errors.{invalid_pn_sequence}
use rfmesh_workspace.Dsss.Pn.{generate_m_sequence, validate_lfsr_params}
use rfmesh_workspace.Base.Bits.Length.{bit_length, bit_length_from}
use rfmesh_workspace.Node.Config.Comms.{
  CommsConfig, no_mask, largest_differs, make_comms_config, spreading_consistency, pn_sequence,
}
use rfmesh_workspace.Node.Config.Comms.Sequence.{pn_sequence-length}
use rfmesh_workspace.Node.Config.Validity.{IsValid, make_node_config-IsValid}
use rfmesh_workspace.Node.Capabilities.{
  detect_active_capabilities, build_estimators, l1_amplitude_sweep, Receiver, Estimator,
  not_coherent, build_pipeline,
}
use rfmesh_workspace.Node.Capabilities.Boot.{
  IsReady, shortfall, first_l2, method, estimator_capabilities, build_pipeline-IsValid,
  build_pipeline-shortfall,
}

abbrev pair_array : ArrayConfig
pair_array = record {
  geometry = uca;
  n_elements = 2;
  element_spacing = some (pos 164000);
  element_positions = none;
}

abbrev placed_array : ArrayConfig
placed_array = record {
  geometry = custom;
  n_elements = 2;
  element_spacing = none;
  element_positions = some ((pos 0, pos 0) ∷ (pos 164000, pos 0) ∷ []);
}

abbrev mast : NodeConfig ℕ
mast = record {
  node_id = 7 ∷ [];
  position = 0;
  heading = some 90000000;
  center_freq = 868000000;
  array = some pair_array;
  capabilities = l1_rssi ∷ l2_mvdr_null ∷ l2_capon ∷ [];
  bearer = record { kind = wifi; lora_serial_port = none };
}

abbrev two_channels : Receiver
two_channels = record { n_coherent_channels = 2; is_calibrated = some true }

abbrev plain_receiver : Receiver
plain_receiver = record { n_coherent_channels = 1; is_calibrated = none }

both_described :
    make_array (record placed_array { element_spacing = some (pos 1) }) ≡ err has_spacing
unfolding make_array geometry_consistency
both_described = refl

unmatched : make_array (record placed_array { n_elements = 3 }) ≡ err count_differs
unfolding make_array geometry_consistency
unmatched = refl

without_heading : make_node_config (record mast { heading = none }) ≡ err needs_heading
unfolding make_node_config capabilities_consistency is_oriented
without_heading = refl

make_node_config-IsValid_example :
    (make_node_config mast ≡ ok mast) ↔ ((mast ≡ mast) × IsValid mast)
make_node_config-IsValid_example = make_node_config-IsValid mast mast

mast-IsValid : IsValid mast
unfolding make_node_config capabilities_consistency is_oriented
mast-IsValid = ((make_node_config-IsValid mast mast).0 refl).1

at_full_turn : make_node_config (record mast { heading = some 360000000 }) ≡ err out_of_range
unfolding make_node_config capabilities_consistency is_oriented
at_full_turn = refl

build_pipeline-IsValid_example :
    (es : List (Estimator ℕ)) × (build_pipeline mast two_channels ≡ ok (mast.capabilities, es))
    × (map method es ≡ estimator_capabilities mast.capabilities)
unfolding IsReady
build_pipeline-IsValid_example =
    build_pipeline-IsValid mast two_channels mast-IsValid
      (λ among. elim among [
        | inl same ↦ cc
        | inr (inl same) ↦ cc
        | inr (inr (inl same)) ↦ cc
        | inr (inr (inr none_left)) ↦ none_left
      ])
      (λ _. (refl, omega arith, refl))

-- The code tests nothing for COMMS_DSSS: a node on a receive-only receiver starts, beside the L1 sweep.
comms_unchecked :
    build_pipeline
      (record mast { array = none; capabilities = l1_rssi ∷ comms_dsss ∷ [] })
      plain_receiver
    ≡ ok (l1_rssi ∷ comms_dsss ∷ [], l1_amplitude_sweep (7 ∷ []) 0 1024 ∷ [])
unfolding build_pipeline detect_active_capabilities build_estimators
comms_unchecked = refl

build_pipeline-shortfall_example :
    build_pipeline mast plain_receiver ≡ err (not_coherent l2_mvdr_null)
unfolding first_l2 shortfall
build_pipeline-shortfall_example =
    build_pipeline-shortfall mast plain_receiver mast-IsValid refl refl

abbrev link : CommsConfig
link = record {
  carrier_freq = 868000000;
  chip_rate = 10000000;
  spreading_factor = 7;
  lfsr_taps = 3 ∷ 1 ∷ [];
  lfsr_seed = 5;
  tdd_slot = 100000;
  tdd_guard = 20000;
  frame_payload_max_bytes = 32;
}

not_a_mask : make_comms_config (record link { spreading_factor = 6 }) ≡ err no_mask
unfolding make_comms_config spreading_consistency
not_a_mask = refl

other_register : make_comms_config (record link { spreading_factor = 15 }) ≡ err largest_differs
unfolding make_comms_config spreading_consistency bit_length bit_length_from
other_register = refl

-- Accepted, and the first slot then raises.
seed_beyond_register :
    (make_comms_config (record link { lfsr_seed = 8 }) ≡ ok (record link { lfsr_seed = 8 }))
    × (pn_sequence (record link { lfsr_seed = 8 }) ≡ err invalid_pn_sequence)
unfolding make_comms_config spreading_consistency bit_length bit_length_from pn_sequence
    generate_m_sequence validate_lfsr_params
seed_beyond_register = (refl, refl)

pn_sequence-length_example : (chips : List ℤ) × (pn_sequence link ≡ ok chips) × (length chips ≡ 7)
unfolding make_comms_config spreading_consistency bit_length bit_length_from
pn_sequence-length_example = pn_sequence-length link link refl refl (omega arith)
