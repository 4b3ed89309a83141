-- ===== src/Servo/Tests.antt =====
-- The servo link at concrete inputs.
mod Line
use rfmesh_workspace.Base.{
  ℕ, ◌+◌, ◌/◌, ◌≤◌, ◌<◌, ◌≡◌, ◌≢◌, ap, ◌↔◌, ◌⊎◌, refl, List, [], ◌∷◌, ◌++◌, Option, none, some,
  true, All, all, all-All, arith, ltb, inl, inr, length, replicate, tests,
}
use rfmesh_workspace.Base.Int.{ℤ, pos, negsuc}
use rfmesh_workspace.Servo.Errors.{
  Result, ServoError, ok, err, ◌>>=◌, frame_error, overrun, out_of_fuel, servo_command, value_error,
}
use rfmesh_workspace.Servo.Crc.{crc_round, crc_rounds, crc_byte, crc_loop, crc16_ccitt_false}
use rfmesh_workspace.Servo.Crc.Detection.{
  IsByte, crc16_ccitt_false-lt, crc16_ccitt_false_detects_burst,
}
use rfmesh_workspace.Servo.Cobs.{cobs_encode, cobs_decode, encode_loop, encode_byte, decode_loop}
use rfmesh_workspace.Servo.Cobs.RoundTrip.{
  IsStuffed, cobs_decode-cobs_encode, length-cobs_encode, cobs_encode-IsStuffed,
  cobs_decode_one_block,
}
use rfmesh_workspace.Servo.Protocol.{
  protocol_version, encode_frame, decode_frame, decode_body, strip_terminator, frame_body,
  to_u16_le, frame_terminator,
}
use rfmesh_workspace.Servo.Protocol.Cmd.{cmd_byte, move, ack, error, stop}
use rfmesh_workspace.Servo.Protocol.RoundTrip.{
  decode_frame-encode_frame, encode_frame_delimited, encode_frame_refuses, decode_body_canonical,
  decode_body_detects_burst,
}
use rfmesh_workspace.Servo.Host.{Host}
use rfmesh_workspace.Servo.Link.{
  read_decoded_loop, read_wire_loop, read, read_from, split_terminator, classify, decoded, Arrival,
  Link, read_wire_frame, read_decoded_frame, stream,
}
use rfmesh_workspace.Servo.Link.Reassembly.{IsNonzero, Took, read_wire_frame_reassembles}
use rfmesh_workspace.Servo.Link.Resync.{IsNoise, terminated, read_decoded_frame_resync}
use rfmesh_workspace.Servo.Link.Ending.{read_decoded_frame-ne-out_of_fuel}
use rfmesh_workspace.Servo.Messages.Replies.{unpack_error, Pong, unpack_pong}
use rfmesh_workspace.Servo.Driver.Connecting.{connect_checked}
use rfmesh_workspace.Servo.Driver.{
  connect, try_unsolicited_pong, no_frame, or_ping, pong_of, Driver, send_expect_ack,
}
use rfmesh_workspace.Servo.Driver.Requests.{
  Answers, send_expect_ack_acknowledged, send_expect_ack_refused,
}

pub nonzero : (bytes : List ℕ) → all (ltb 0) bytes ≡ true → All IsNonzero bytes
nonzero = all-All IsNonzero (ltb 0) (λ b h. ground arith)

pub are_bytes : (bytes : List ℕ) → all (λ b. ltb b 256) bytes ≡ true → All IsByte bytes
are_bytes = all-All IsByte (λ b. ltb b 256) (λ b h. ground arith)

-- A host whose angles are whole tenths of a degree and whose strings are their bytes.
pub some-injective : (s bytes : List ℕ) → some s ≡ some bytes → bytes ≡ s
some-injective s bytes h = cc

abbrev pub plain_host : Host
plain_host = record {
  Deg = ℤ;
  deci_of = λ d. d;
  of_deci = λ d. d;
  deci_of-of_deci = λ d h. refl;
  Str = List ℕ;
  encode_utf8 = λ s. s;
  decode_utf8 = λ bytes. some bytes;
  encode_ascii = λ s. some s;
  decode_ascii = λ bytes. some bytes;
  decode_utf8-encode_utf8 = λ s. refl;
  decode_ascii-encode_ascii = λ s bytes h. ap some (some-injective s bytes h);
}

abbrev pub move_wire : List ℕ
move_wire = 4 ∷ 1 ∷ 4 ∷ 2 ∷ 5 ∷ 194 ∷ 1 ∷ 201 ∷ 79 ∷ 0 ∷ []

pub move_fits : encode_frame (cmd_byte move) (2 ∷ 0 ∷ 194 ∷ 1 ∷ []) ≡ ok move_wire
unfolding cmd_byte encode_frame frame_body cobs_encode encode_loop encode_byte crc16_ccitt_false
    crc_loop crc_byte crc_rounds crc_round
move_fits = refl

decode_frame-encode_frame_example :
    (wire : List ℕ) × (encode_frame 1 (0 ∷ 7 ∷ []) ≡ ok wire)
    × (decode_frame wire ≡ ok (1, 0 ∷ 7 ∷ []))
decode_frame-encode_frame_example =
    decode_frame-encode_frame 1 (0 ∷ 7 ∷ []) (omega arith) (omega arith)

abbrev ack_body : List ℕ
ack_body = 240 ∷ 1 ∷ 1 ∷ 222 ∷ 12 ∷ []

ack_accepted : decode_body ack_body ≡ ok (240, 1 ∷ [])
unfolding decode_body crc16_ccitt_false crc_loop crc_byte crc_rounds crc_round
ack_accepted = refl

crc16_ccitt_false_detects_burst_example : ◌≡◌ {A = ℕ} 3 3 × ◌≡◌ {A = ℕ} 4 4
crc16_ccitt_false_detects_burst_example =
    crc16_ccitt_false_detects_burst (1 ∷ 2 ∷ []) (5 ∷ []) 3 4 3 4 (are_bytes (1 ∷ 2 ∷ []) refl)
      (are_bytes (5 ∷ []) refl) (omega arith) (omega arith) (omega arith) (omega arith) refl

cobs_encode-IsStuffed_example : All IsStuffed (cobs_encode (0 ∷ 1 ∷ 0 ∷ []))
cobs_encode-IsStuffed_example =
    cobs_encode-IsStuffed (0 ∷ 1 ∷ 0 ∷ []) (are_bytes (0 ∷ 1 ∷ 0 ∷ []) refl)

length-cobs_encode_example :
    (3 + 1 ≤ length (cobs_encode (0 ∷ 1 ∷ 0 ∷ [])))
    × (length (cobs_encode (0 ∷ 1 ∷ 0 ∷ [])) ≤ 3 + 1 + 3 / 254)
length-cobs_encode_example = length-cobs_encode (0 ∷ 1 ∷ 0 ∷ [])
