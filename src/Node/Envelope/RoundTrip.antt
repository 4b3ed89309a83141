-- ===== src/Node/Envelope/RoundTrip.antt =====
-- What an envelope decodes to: its own message, whatever follows it, and which error other bytes give.
use rfmesh_workspace.Base.{
  ℕ, ◌+◌, ◌-◌, ◌≤◌, ◌≡◌, refl, ap, ◌∙◌, List, ◌++◌, Option, none, some, true, false, ltb, ◌==◌,
  ==_refl, ==→eq, length, take, drop, slice, take-length_append, length-take, length-drop,
  Bool-cases, inl, inr, tests, arith,
}
use rfmesh_workspace.Base.Results.{Try, ok, err}
use rfmesh_workspace.Node.Envelope.{
  EnvelopeError, too_large, decode_error, Message, bearing, status, fix, Tag, bearing_report,
  node_status, fix_event, unknown, Unpacked, raises, not_dict, envelope, Codec, max_message_bytes,
  pack_length, unpack_length, body_of, encode_envelope, or_invalid, validate, read_body,
  decode_envelope,
}

module _ {Rest Status Fix : Type 0} (codec : Codec Rest Status Fix) where
  read_body-body_of :
      (message : Message Rest Status Fix)
      → read_body codec (codec.unpackb (body_of codec message)) ≡ ok message
  unfolding read_body body_of validate
  read_body-body_of (bearing b) =
      ap (read_body codec) (codec.unpackb-packb bearing_report (codec.dump_bearing b))
      ∙ ap (or_invalid codec bearing) (codec.validate_bearing-dump_bearing b)
  read_body-body_of (status s) =
      ap (read_body codec) (codec.unpackb-packb node_status (codec.dump_status s))
      ∙ ap (or_invalid codec status) (codec.validate_status-dump_status s)
  read_body-body_of (fix f) =
      ap (read_body codec) (codec.unpackb-packb fix_event (codec.dump_fix f))
      ∙ ap (or_invalid codec fix) (codec.validate_fix-dump_fix f)

  unpack_length-pack_length :
      (n : ℕ) (rest : List ℕ) → n ≤ 65536 → unpack_length (take 4 (pack_length n ++ rest)) ≡ n
  unpack_length-pack_length n rest h = omega arith

  decode_envelope-framed :
      (body extra : List ℕ)
      → length body ≤ 65536
      → decode_envelope codec (pack_length (length body) ++ (body ++ extra))
        ≡ read_body codec (codec.unpackb body)
  unfolding decode_envelope
  decode_envelope-framed body extra h =
      let declared = unpack_length-pack_length (length body) (body ++ extra) h in
      let counted : 4 + length body - 4 ≡ length body = omega arith in
      let small : ltb max_message_bytes (length body) ≡ false = ground arith in
      let long : ltb (length (pack_length (length body) ++ (body ++ extra))) 4 ≡ false =
        ground arith in
      rw (declared, counted, take-length_append body extra, ==_refl (length body), small, long) refl

  -- A message whose body has at most 65,536 bytes is encoded, and it decodes from the encoded bytes,
  -- also when more bytes follow.
  pub decode_envelope-encode_envelope :
      (message : Message Rest Status Fix) (extra : List ℕ)
      → length (body_of codec message) ≤ 65536
      → (bytes : List ℕ) × (encode_envelope codec message ≡ ok bytes)
        × (length bytes ≡ 4 + length (body_of codec message))
        × (decode_envelope codec (bytes ++ extra) ≡ ok message)
  unfolding encode_envelope
  decode_envelope-encode_envelope message extra h =
      let body = body_of codec message in
      let small : ltb max_message_bytes (length body) ≡ false = ground arith in
      (
        pack_length (length body) ++ body,
        rw small refl,
        omega arith,
        decode_envelope-framed body extra h ∙ read_body-body_of message,
      )

  -- The result is a message or the error that the bearers catch.
  abbrev pub IsCaught : Try EnvelopeError (Message Rest Status Fix) → Type 0
  IsCaught (err too_large) = ⊥
  IsCaught (err decode_error) = Unit
  IsCaught (ok message) = Unit

  or_invalid-IsCaught :
      {A : Type 0} (make : A → Message Rest Status Fix) (o : Option A)
      → IsCaught (or_invalid codec make o)
  or_invalid-IsCaught make none = tt
  or_invalid-IsCaught make (some a) = tt

  validate-IsCaught : (t : Tag) (p : codec.Payload) → IsCaught (validate codec t p)
  unfolding validate
  validate-IsCaught bearing_report p = or_invalid-IsCaught bearing (codec.validate_bearing p)
  validate-IsCaught node_status p = or_invalid-IsCaught status (codec.validate_status p)
  validate-IsCaught fix_event p = or_invalid-IsCaught fix (codec.validate_fix p)
  validate-IsCaught unknown p = tt

  read_body-IsCaught : (u : Unpacked codec.Payload) → IsCaught (read_body codec u)
  unfolding read_body
  read_body-IsCaught raises = tt
  read_body-IsCaught not_dict = tt
  read_body-IsCaught (envelope none p) = tt
  read_body-IsCaught (envelope (some t) none) = tt
  read_body-IsCaught (envelope (some t) (some p)) = validate-IsCaught t p

  declared-le :
      (bytes : List ℕ) (n : ℕ)
      → length bytes ≤ 65536
      → (length (slice bytes 4 (4 + n)) == n) ≡ true
      → n ≤ 65536
  declared-le bytes n h same =
      omega
        (tests, same, ==→eq _ _ same, length-take (4 + n - 4) (drop 4 bytes), length-drop 4 bytes)

  -- Bytes that fit a datagram of 65,536 bytes decode to a message or to the error that the bearers
  -- catch, never to the error of a message too large.
  pub decode_envelope-IsCaught :
      (bytes : List ℕ) → length bytes ≤ 65536 → IsCaught (decode_envelope codec bytes)
  unfolding decode_envelope
  decode_envelope-IsCaught bytes h =
      let n = unpack_length (take 4 bytes) in
      elim (Bool-cases (ltb (length bytes) 4)) [
        | inl short ↦ rw short tt
        | inr long ↦ elim (Bool-cases (length (slice bytes 4 (4 + n)) == n)) [
          | inl whole ↦
              let small : ltb max_message_bytes n ≡ false =
                ground (arith, declared-le bytes n h whole) in
              rw (long, whole, small) (read_body-IsCaught (codec.unpackb (slice bytes 4 (4 + n))))
          | inr cut ↦ rw (long, cut) tt
        ]
      ]
