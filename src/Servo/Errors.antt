-- ===== src/Servo/Errors.antt =====
-- packages/rfmesh-servo/src/rfmesh_servo/exceptions.py: the exceptions of the package as values, and
-- `ValueError` and `struct.error`, which the encoders raise. What a message string says is kept as the case it names.
pub use rfmesh_workspace.Base.Results.{ok, err, refuse, ◌>>=◌, ◌>>◌, >>=-eq-ok}
use rfmesh_workspace.Base.Results.{Try}
use rfmesh_workspace.Base.{ℕ, List}

-- The reasons for which a received frame or payload is dropped.
pub data FrameFault : Type 0 where
  empty_cobs zero_code overrun : FrameFault
  empty_wire only_terminator too_short length_mismatch crc_mismatch : FrameFault
  payload_length bad_text : FrameFault

pub data ServoError : Type 0 where
  frame_error : FrameFault → ServoError
  value_error : ServoError
  struct_error : ServoError
  protocol_error : ServoError
  incompatible_protocol : ServoError
  linenoise_detected : ServoError
  servo_timeout : ServoError
  servo_command : ℕ → ℕ → List ℕ → ServoError
  -- Not an exception of the program: the fuel of a loop ran out.
  out_of_fuel : ServoError

abbrev pub Result {ℓ} : Type ℓ → Type ℓ
Result A = Try ServoError A
