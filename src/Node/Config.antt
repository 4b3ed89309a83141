-- ===== src/Node/Config.antt =====
-- packages/rfmesh-contracts/src/rfmesh_contracts/config.py: the array, the bearer and the node as a
-- configuration file declares them, with the checks on construction. Lengths count in micrometres,
-- angles in microdegrees and frequencies in hertz.
pub mod Checks
pub mod Validity
pub mod Comms
use rfmesh_workspace.Base.{
  ℕ, List, [], ◌∷◌, Option, none, some, Bool, true, false, not, ◌&&◌, ◌||◌, ◌==◌, ltb, length,
}
use rfmesh_workspace.Base.Int.{ℤ}
use rfmesh_workspace.Base.Results.{Try, ok, err, refuse, ◌>>◌}
use rfmesh_workspace.Fusion.Bearings.{
  Capability, l1_rssi, l2_music, l2_capon, l2_mvdr_null, l3_classify, l1_refused_prominence,
  comms_dsss,
}

pub data ArrayGeometry : Type 0 where
  ula uca custom : ArrayGeometry

pub record ArrayConfig : Type 0 where
  pub geometry : ArrayGeometry
  pub n_elements : ℕ
  pub element_spacing : Option ℤ
  pub element_positions : Option (List (ℤ × ℤ))

pub data BearerKind : Type 0 where
  wifi lora both : BearerKind

pub record BearerConfig : Type 0 where
  pub kind : BearerKind
  pub lora_serial_port : Option (List ℕ)

pub record NodeConfig (P : Type 0) : Type 0 where
  pub node_id : List ℕ
  pub position : P
  pub heading : Option ℕ
  pub center_freq : ℕ
  pub array : Option ArrayConfig
  pub capabilities : List Capability
  pub bearer : BearerConfig

-- The messages of the `ValueError`s.
pub data ConfigError : Type 0 where
  out_of_range needs_spacing has_positions needs_positions has_spacing count_differs : ConfigError
  needs_port has_port needs_array has_array needs_heading : ConfigError

abbrev pub is_set : {A : Type 0} → Option A → Bool
is_set none = false
is_set (some a) = true

abbrev pub is_parametric : ArrayGeometry → Bool
is_parametric custom = false
is_parametric ula = true
is_parametric uca = true

abbrev pub count_of : {A : Type 0} → Option (List A) → ℕ
count_of none = 0
count_of (some xs) = length xs

-- `ArrayConfig._geometry_consistency`
abbrev pub parametric_consistency : ArrayConfig → Try ConfigError ArrayConfig
parametric_consistency a = do
  refuse (not (is_set a.element_spacing)) needs_spacing
  refuse (is_set a.element_positions) has_positions
  ok a

abbrev pub custom_consistency : ArrayConfig → Try ConfigError ArrayConfig
custom_consistency a = do
  refuse (not (is_set a.element_positions)) needs_positions
  refuse (is_set a.element_spacing) has_spacing
  refuse (not (count_of a.element_positions == a.n_elements)) count_differs
  ok a

abbrev pub by_geometry : Bool → ArrayConfig → Try ConfigError ArrayConfig
by_geometry true a = parametric_consistency a
by_geometry false a = custom_consistency a

unfoldable pub geometry_consistency : ArrayConfig → Try ConfigError ArrayConfig
geometry_consistency a = by_geometry (is_parametric a.geometry) a

-- The fields are checked before the validator of the whole.
unfoldable pub make_array : ArrayConfig → Try ConfigError ArrayConfig
make_array a = do refuse (ltb a.n_elements 2) out_of_range; geometry_consistency a

abbrev pub uses_lora : BearerKind → Bool
uses_lora wifi = false
uses_lora lora = true
uses_lora both = true

-- `BearerConfig._lora_needs_port`
unfoldable pub lora_needs_port : BearerConfig → Try ConfigError BearerConfig
lora_needs_port b = do
  refuse (uses_lora b.kind && not (is_set b.lora_serial_port)) needs_port
  refuse (not (uses_lora b.kind) && is_set b.lora_serial_port) has_port
  ok b

-- The members of `l2_caps`, which are those of `_L2_CAPABILITIES` too.
abbrev pub is_l2 : Capability → Bool
is_l2 l2_music = true
is_l2 l2_capon = true
is_l2 l2_mvdr_null = true
is_l2 l1_rssi = false
is_l2 l3_classify = false
is_l2 l1_refused_prominence = false
is_l2 comms_dsss = false

abbrev pub is_l1_rssi : Capability → Bool
is_l1_rssi l1_rssi = true
is_l1_rssi l2_music = false
is_l1_rssi l2_capon = false
is_l1_rssi l2_mvdr_null = false
is_l1_rssi l3_classify = false
is_l1_rssi l1_refused_prominence = false
is_l1_rssi comms_dsss = false

abbrev pub any : (Capability → Bool) → List Capability → Bool
any test [] = false
any test (c ∷ cs) = test c || any test cs

abbrev pub declares_l2 : List Capability → Bool
declares_l2 cs = any is_l2 cs

abbrev pub is_line : ArrayGeometry → Bool
is_line ula = true
is_line uca = false
is_line custom = false

abbrev pub is_ula : Option ArrayConfig → Bool
is_ula none = false
is_ula (some a) = is_line a.geometry

-- The heading lies in [0, 360) degrees.
abbrev pub is_heading : Option ℕ → Bool
is_heading none = true
is_heading (some h) = ltb h 360000000

module _ {P : Type 0} where
  -- `needs_heading` of `NodeConfig._capabilities_consistency`.
  unfoldable pub is_oriented : NodeConfig P → Bool
  is_oriented c = any is_l1_rssi c.capabilities || (declares_l2 c.capabilities && is_ula c.array)

  unfoldable pub capabilities_consistency : NodeConfig P → Try ConfigError (NodeConfig P)
  unfolding is_oriented
  capabilities_consistency c = do
    refuse (declares_l2 c.capabilities && not (is_set c.array)) needs_array
    refuse (not (declares_l2 c.capabilities) && is_set c.array) has_array
    refuse (is_oriented c && not (is_set c.heading)) needs_heading
    ok c

  unfoldable pub make_node_config : NodeConfig P → Try ConfigError (NodeConfig P)
  unfolding capabilities_consistency
  make_node_config c = do
    refuse (length c.node_id == 0) out_of_range
    refuse (not (is_heading c.heading)) out_of_range
    refuse (length c.capabilities == 0) out_of_range
    capabilities_consistency c
