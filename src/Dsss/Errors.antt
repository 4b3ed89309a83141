-- ===== src/Dsss/Errors.antt =====
-- packages/rfmesh-dsss/src/rfmesh_dsss/exceptions.py as values; a frame's rejection keeps its reason.
pub use rfmesh_workspace.Base.Results.{ok, err, refuse, ◌>>=◌, ◌>>◌}
use rfmesh_workspace.Base.Results.{Try}

pub data Rejected : Type 0 where
  byte_field payload_too_long payload_bound not_whole_bytes : Rejected
  unequal_lengths no_room_for_sync no_sync : Rejected
  too_short declared_too_long truncated crc_mismatch : Rejected

pub data DsssError : Type 0 where
  frame_decode_error : Rejected → DsssError
  invalid_pn_sequence : DsssError
  -- `bytes` of a number above 255.
  value_error : DsssError

abbrev pub Result {ℓ} : Type ℓ → Type ℓ
Result A = Try DsssError A
