-- ===== src/Servo/Messages/Replies/RoundTrip.antt =====
-- The replies of messages.py, packed and unpacked.
use rfmesh_workspace.Base.{
  ℕ, ◌%◌, ◌≡◌, refl, List, [], ◌∷◌, ◌++◌, false, not, ltb, ◌==◌, Bool-cases, inl, inr, arith,
  length, some, bit_and,
}
use rfmesh_workspace.Base.Bits.{bit_and_u8}
use rfmesh_workspace.Servo.Host.{Host}
use rfmesh_workspace.Servo.Errors.{ok, ◌>>=◌, ◌>>◌, refuse, value_error}
use rfmesh_workspace.Servo.Messages.Replies.{
  Pong, ErrorReply, pack_pong, unpack_pong, pack_error, unpack_error,
}

module _ (host : Host) where
  open host use {
    Str, encode_utf8, decode_utf8, encode_ascii, decode_ascii, decode_utf8-encode_utf8,
    decode_ascii-encode_ascii,
  }

  abbrev sent : Pong host → List ℕ → List ℕ
  sent m sha =
      (bit_and m.proto_version 0xff
        ∷ bit_and m.fw_major 0xff
        ∷ bit_and m.fw_minor 0xff
        ∷ bit_and m.fw_patch 0xff
        ∷ [])
      ++ sha
      ++ (bit_and m.axis_count 0xff ∷ 0 ∷ 0 ∷ 0 ∷ [])

  unpack_sent :
      (m : Pong host) (sha : List ℕ)
      → length sha ≡ 8
      → decode_ascii sha ≡ some m.git_short_sha
      → unpack_pong host (sent m sha)
        ≡ ok (record {
          proto_version = m.proto_version % 256;
          fw_major = m.fw_major % 256;
          fw_minor = m.fw_minor % 256;
          fw_patch = m.fw_patch % 256;
          git_short_sha = m.git_short_sha;
          axis_count = m.axis_count % 256;
        })
  unfolding unpack_pong
  unpack_sent m (a ∷ b ∷ c ∷ d ∷ e ∷ f ∷ g ∷ h ∷ []) len text =
      rw
        (
          text,
          bit_and_u8 m.proto_version,
          bit_and_u8 m.fw_major,
          bit_and_u8 m.fw_minor,
          bit_and_u8 m.fw_patch,
          bit_and_u8 m.axis_count,
        )
        refl
  unpack_sent m _ len text = absurd (omega arith)

  -- A PONG whose commit is eight ASCII characters comes back with each number modulo 256.
  pub unpack_pong-pack_pong :
      (m : Pong host) (sha : List ℕ)
      → encode_ascii m.git_short_sha ≡ some sha
      → length sha ≡ 8
      → (pack_pong host m >>= unpack_pong host)
        ≡ ok (record {
          proto_version = m.proto_version % 256;
          fw_major = m.fw_major % 256;
          fw_minor = m.fw_minor % 256;
          fw_patch = m.fw_patch % 256;
          git_short_sha = m.git_short_sha;
          axis_count = m.axis_count % 256;
        })
  unfolding pack_pong
  unpack_pong-pack_pong m sha coded len =
      let fits : (not (length sha == 8)) ≡ false = ground arith in
      rw (coded, fits) (unpack_sent m sha len (decode_ascii-encode_ascii m.git_short_sha sha coded))

  -- An ERROR with a text of at most 64 bytes comes back with both numbers modulo 256; a longer text
  -- is refused.
  pub unpack_error-pack_error :
      (m : ErrorReply host)
      → (pack_error host m >>= unpack_error host) ≡ (
          refuse (ltb 64 (length (encode_utf8 m.message))) value_error
          >> ok (record {
            original_cmd = m.original_cmd % 256;
            error_code = m.error_code % 256;
            message = m.message;
          }))
  unfolding pack_error unpack_error
  unpack_error-pack_error m = elim (Bool-cases (ltb 64 (length (encode_utf8 m.message)))) [
    | inl long ↦ rw long refl
    | inr fits ↦
        rw
          (
            fits,
            decode_utf8-encode_utf8 m.message,
            bit_and_u8 m.original_cmd,
            bit_and_u8 m.error_code,
          )
          refl
  ]
