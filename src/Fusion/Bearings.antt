-- ===== src/Fusion/Bearings.antt =====
-- packages/rfmesh-contracts/src/rfmesh_contracts: the enumerations and the reports that a fuser reads.
-- Angles count in microdegrees, clockwise from north; positions are of a type P.
use rfmesh_workspace.Base.{ℕ, Bool, true, false, Option, none, some}

pub data Capability : Type 0 where
  l1_rssi l2_music l2_capon l2_mvdr_null l3_classify l1_refused_prominence comms_dsss : Capability

pub data BearingPriorKind : Type 0 where
  flat peer_link : BearingPriorKind

pub data EmitterClass : Type 0 where
  unknown elrs crossfire gsm_jammer pole21 volnorez droneid : EmitterClass

pub data ConfidenceLevel : Type 0 where
  high medium low : ConfidenceLevel

pub record BearingReport (P : Type 0) : Type 0 where
  pub node_id : ℕ
  pub t_unix_ns : ℕ
  pub node_position : P
  pub azimuth : ℕ
  pub azimuth_sigma : ℕ
  pub method : Capability
  pub prior_kind : Option BearingPriorKind
  pub emitter_class : Option EmitterClass

-- `is` on the members of an enumeration.
abbrev pub is_refused : Capability → Bool
is_refused l1_refused_prominence = true
is_refused _ = false

abbrev pub is_peer_link : Option BearingPriorKind → Bool
is_peer_link (some peer_link) = true
is_peer_link (some flat) = false
is_peer_link none = false
