-- ===== src/Node/Config/Comms.antt =====
-- packages/rfmesh-contracts/src/rfmesh_contracts/config.py: the configuration of the comms link, and the
-- code sequence that packages/rfmesh-node/src/rfmesh_node/comms/comms_loop.py makes of it. Frequencies
-- count in hertz and times in microseconds.
pub mod Sequence
use rfmesh_workspace.Base.{
  ℕ, zero, suc, ◌+◌, ◌-◌, ◌/◌, bit_and, List, not, ◌==◌, ltb, leb, ◌||◌, length,
}
use rfmesh_workspace.Base.Bits.Length.{bit_length}
use rfmesh_workspace.Base.Int.{ℤ}
use rfmesh_workspace.Base.Results.{Try, ok, err, refuse, ◌>>◌}
use rfmesh_workspace.Dsss.Errors.{Result}
use rfmesh_workspace.Dsss.Pn.{largest, smallest, generate_m_sequence}

pub record CommsConfig : Type 0 where
  pub carrier_freq : ℕ
  pub chip_rate : ℕ
  pub spreading_factor : ℕ
  pub lfsr_taps : List ℕ
  pub lfsr_seed : ℕ
  pub tdd_slot : ℕ
  pub tdd_guard : ℕ
  pub frame_payload_max_bytes : ℕ

pub data CommsConfigError : Type 0 where
  field_range no_mask no_taps largest_differs tap_below_one : CommsConfigError

abbrev pub n_register : ℕ → ℕ
n_register sf = bit_length (sf + 1) - 1

-- `CommsConfig._spreading_consistency`
unfoldable pub spreading_consistency : CommsConfig → Try CommsConfigError CommsConfig
spreading_consistency c = do
  refuse (c.spreading_factor == 0 || not (bit_and c.spreading_factor (c.spreading_factor + 1) == 0))
      no_mask
  refuse (length c.lfsr_taps == 0) no_taps
  refuse (not (largest c.lfsr_taps == n_register c.spreading_factor)) largest_differs
  refuse (ltb (smallest c.lfsr_taps) 1) tap_below_one
  ok c

-- The ranges of the fields come first.
unfoldable pub make_comms_config : CommsConfig → Try CommsConfigError CommsConfig
make_comms_config c = do
  refuse (c.carrier_freq == 0) field_range
  refuse (c.chip_rate == 0) field_range
  refuse (ltb c.spreading_factor 3) field_range
  refuse (c.lfsr_seed == 0) field_range
  refuse (c.tdd_slot == 0) field_range
  refuse (c.frame_payload_max_bytes == 0) field_range
  spreading_consistency c

-- `CommsLoop._pn`, without its cache.
unfoldable pub pn_sequence : CommsConfig → Result (List ℤ)
pn_sequence c = generate_m_sequence (largest c.lfsr_taps) c.lfsr_taps c.lfsr_seed
