-- ===== src/Servo/Protocol.antt =====
-- packages/rfmesh-servo/src/rfmesh_servo/protocol.py: the frame CMD, LEN, PAYLOAD and CRC, stuffed
-- and ended by one byte 0.
pub mod RoundTrip
pub mod Cmd
use rfmesh_workspace.Base.{
  ℕ, zero, suc, ◌+◌, ◌-◌, ◌*◌, ◌/◌, ◌%◌, List, [], ◌∷◌, ◌++◌, Option, none, some, Bool, true, false,
  ltb, ◌==◌, if◌then◌else◌, length, get_elem?, take, drop, slice,
}
use rfmesh_workspace.Servo.Errors.{
  Result, ok, err, ◌>>=◌, ◌>>◌, refuse, frame_error, value_error, empty_wire, only_terminator,
  too_short, length_mismatch, crc_mismatch,
}
use rfmesh_workspace.Servo.Crc.{crc16_ccitt_false}
use rfmesh_workspace.Servo.Cobs.{cobs_encode, cobs_decode}

abbrev pub protocol_version : ℕ
protocol_version = 1

abbrev pub frame_terminator : ℕ
frame_terminator = 0x00

abbrev pub max_payload_bytes : ℕ
max_payload_bytes = 253

-- `crc.to_bytes(2, "little")` and `int.from_bytes(crc_bytes, "little")`
abbrev pub to_u16_le : ℕ → List ℕ
to_u16_le n = (n % 256) ∷ (n / 256) ∷ []

abbrev pub from_le : List ℕ → ℕ
from_le [] = 0
from_le (b ∷ bytes) = b + 256 * from_le bytes

-- The bytes under the checksum, and the frame before it is stuffed.
unfoldable pub frame_body : ℕ → List ℕ → List ℕ
frame_body cmd payload = cmd ∷ length payload ∷ payload

-- A command byte is a natural number here, so `0 <= cmd` always holds.
unfoldable pub encode_frame : ℕ → List ℕ → Result (List ℕ)
encode_frame cmd payload = do
  refuse (ltb 0xff cmd) value_error
  refuse (ltb max_payload_bytes (length payload)) value_error
  let body = frame_body cmd payload
  let crc = crc16_ccitt_false body
  ok (cobs_encode (body ++ to_u16_le crc) ++ (frame_terminator ∷ []))

-- `wire[-1] == FRAME_TERMINATOR`
abbrev pub last_is : ℕ → List ℕ → Bool
last_is b [] = false
last_is b (x ∷ []) = x == b
last_is b (x ∷ y ∷ rest) = last_is b (y ∷ rest)

-- `wire[:-1]` if the terminator stands last.
unfoldable pub strip_terminator : List ℕ → List ℕ
strip_terminator wire = if last_is frame_terminator wire then take (length wire - 1) wire else wire

-- `decoded[i]`, read only behind a test of the length.
abbrev pub byte_at : List ℕ → ℕ → ℕ
byte_at bytes i = elim (get_elem? bytes i) [ none ↦ 0 | some b ↦ b ]

-- The part of `decode_frame` behind the stuffing.
unfoldable pub decode_body : List ℕ → Result (ℕ × List ℕ)
decode_body decoded = do
  refuse (ltb (length decoded) 4) (frame_error too_short)
  let cmd = byte_at decoded 0
  let len = byte_at decoded 1
  let expected_total = 2 + len + 2
  refuse (if length decoded == expected_total then false else true) (frame_error length_mismatch)
  let payload = slice decoded 2 (2 + len)
  let received_crc = from_le (drop (2 + len) decoded)
  let expected_crc = crc16_ccitt_false (take (2 + len) decoded)
  refuse (if received_crc == expected_crc then false else true) (frame_error crc_mismatch)
  ok (cmd, payload)

unfoldable pub decode_frame : List ℕ → Result (ℕ × List ℕ)
decode_frame wire = do
  refuse (length wire == 0) (frame_error empty_wire)
  let wire' = strip_terminator wire
  refuse (length wire' == 0) (frame_error only_terminator)
  decoded ← cobs_decode wire'
  decode_body decoded
