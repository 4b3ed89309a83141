-- ===== src/Servo/Messages/Replies.antt =====
-- The replies of packages/rfmesh-servo/src/rfmesh_servo/messages.py: PONG, ACK and ERROR.
pub mod RoundTrip
use rfmesh_workspace.Base.{
  ℕ, List, [], ◌∷◌, ◌++◌, Option, none, some, not, ltb, ◌==◌, length, bit_and,
}
use rfmesh_workspace.Servo.Host.{Host}
use rfmesh_workspace.Servo.Errors.{
  Result, ok, err, ◌>>=◌, ◌>>◌, refuse, frame_error, value_error, payload_length, bad_text,
}

pub record Ack : Type 0 where
  pub cmd : ℕ

unfoldable pub pack_ack : Ack → List ℕ
pack_ack m = bit_and m.cmd 0xff ∷ []

unfoldable pub unpack_ack : List ℕ → Result Ack
unpack_ack (cmd ∷ []) = ok (record { cmd = cmd })
unpack_ack _ = err (frame_error payload_length)

module _ (host : Host) where
  open host use {Str, encode_utf8, decode_utf8, encode_ascii, decode_ascii}

  -- A codec's error: on encoding a `ValueError`, on decoding a `FrameError` of the code.
  abbrev encoded : Option (List ℕ) → Result (List ℕ)
  encoded none = err value_error
  encoded (some bytes) = ok bytes

  abbrev decoded : Option Str → Result Str
  decoded none = err (frame_error bad_text)
  decoded (some s) = ok s

  pub record Pong : Type 0 where
    pub proto_version : ℕ
    pub fw_major : ℕ
    pub fw_minor : ℕ
    pub fw_patch : ℕ
    pub git_short_sha : Str
    pub axis_count : ℕ

  unfoldable pub pack_pong : Pong → Result (List ℕ)
  pack_pong m = do
    sha_bytes ← encoded (encode_ascii m.git_short_sha)
    refuse (not (length sha_bytes == 8)) value_error
    ok (
        (bit_and m.proto_version 0xff
          ∷ bit_and m.fw_major 0xff
          ∷ bit_and m.fw_minor 0xff
          ∷ bit_and m.fw_patch 0xff
          ∷ [])
        ++ sha_bytes
        ++ (bit_and m.axis_count 0xff ∷ 0 ∷ 0 ∷ 0 ∷ []))

  unfoldable pub unpack_pong : List ℕ → Result Pong
  unpack_pong
        (proto ∷ major ∷ minor ∷ patch ∷ a ∷ b ∷ c ∷ d ∷ e ∷ f ∷ g ∷ h ∷ axes ∷ r ∷ s ∷ t ∷ []) =
      do
        sha ← decoded (decode_ascii (a ∷ b ∷ c ∷ d ∷ e ∷ f ∷ g ∷ h ∷ []))
        ok (record {
          proto_version = proto;
          fw_major = major;
          fw_minor = minor;
          fw_patch = patch;
          git_short_sha = sha;
          axis_count = axes;
        })
  unpack_pong _ = err (frame_error payload_length)

  pub record ErrorReply : Type 0 where
    pub original_cmd : ℕ
    pub error_code : ℕ
    pub message : Str

  unfoldable pub pack_error : ErrorReply → Result (List ℕ)
  pack_error m = do
    let msg_bytes = encode_utf8 m.message
    refuse (ltb 64 (length msg_bytes)) value_error
    ok (bit_and m.original_cmd 0xff ∷ bit_and m.error_code 0xff ∷ msg_bytes)

  unfoldable pub unpack_error : List ℕ → Result ErrorReply
  unpack_error (cmd ∷ code ∷ msg_bytes) = do
    message ← decoded (decode_utf8 msg_bytes)
    ok (record { original_cmd = cmd; error_code = code; message = message })
  unpack_error _ = err (frame_error payload_length)
