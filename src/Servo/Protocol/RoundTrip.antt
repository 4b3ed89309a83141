-- ===== src/Servo/Protocol/RoundTrip.antt =====
-- The frames of protocol.py, encoded, decoded and damaged.
use mathlib.Core.Path.{subst, ap₂}
use rfmesh_workspace.Base.{
  ℕ, zero, suc, ◌+◌, ◌-◌, ◌/◌, ◌%◌, ◌≤◌, ◌<◌, ◌≡◌, refl, sym, ap, ◌∙◌, List, [], ◌∷◌, ◌++◌, length,
  length-append, ◌==◌, if◌then◌else◌, ==→eq, arith, All, All-append, All-append_right, true, false,
  ◌⊎◌, ◌↔◌, drop-length_append, take-length_append, append_split, Bool,
}
use rfmesh_workspace.Servo.Errors.{Result, ok, err, frame_error, crc_mismatch, value_error}
use rfmesh_workspace.Servo.Crc.{crc16_ccitt_false}
use rfmesh_workspace.Servo.Crc.Detection.{
  IsByte, crc16_ccitt_false-lt, crc16_ccitt_false_detects_burst,
}
use rfmesh_workspace.Servo.Cobs.{cobs_encode}
use rfmesh_workspace.Servo.Cobs.RoundTrip.{
  IsStuffed, cobs_encode-IsStuffed, cobs_decode-cobs_encode, length-cobs_encode,
}
use rfmesh_workspace.Servo.Protocol.{
  frame_body, encode_frame, decode_body, decode_frame, strip_terminator, last_is, to_u16_le,
  from_le, max_payload_bytes, frame_terminator,
}

-- A body with two bytes behind it is accepted exactly if they hold its checksum.
decode_body-frame_body :
    (cmd x y : ℕ) (payload : List ℕ)
    → decode_body (frame_body cmd payload ++ (x ∷ y ∷ [])) ≡ (
        if from_le (x ∷ y ∷ []) == crc16_ccitt_false (frame_body cmd payload)
        then ok (cmd, payload)
        else err (frame_error crc_mismatch))
unfolding decode_body frame_body
decode_body-frame_body cmd x y payload =
    rw
      (
        plus,
        count,
        drop-length_append payload (x ∷ y ∷ []),
        take-length_append payload (x ∷ y ∷ []),
      )
      (ground (arith, length-append payload (x ∷ y ∷ [])))
  where
    plus : 2 + length payload ≡ suc (suc (length payload))
    plus = omega arith

    count : suc (suc (length payload)) - 2 ≡ length payload
    count = omega arith

-- Little-endian bytes of a number of 16 bits.
from_le-to_u16_le : (n : ℕ) → from_le (to_u16_le n) ≡ n
from_le-to_u16_le n = omega arith

encode_frame_fits :
    (cmd : ℕ) (payload : List ℕ)
    → cmd < 256
    → length payload ≤ max_payload_bytes
    → encode_frame cmd payload
      ≡ ok (
          cobs_encode
            (frame_body cmd payload ++ to_u16_le (crc16_ccitt_false (frame_body cmd payload)))
          ++ (0 ∷ []))
unfolding encode_frame
encode_frame_fits cmd payload hc hp = ground arith

last_is-snoc : (b x : ℕ) (xs : List ℕ) → last_is b (xs ++ (x ∷ [])) ≡ (x == b)
last_is-snoc b x [] = refl
last_is-snoc b x (y ∷ []) = refl
last_is-snoc b x (y ∷ z ∷ xs) = last_is-snoc b x (z ∷ xs)

strip_terminator-snoc : (xs : List ℕ) → strip_terminator (xs ++ (0 ∷ [])) ≡ xs
unfolding strip_terminator
strip_terminator-snoc xs =
    let all_but_last : length (xs ++ (0 ∷ [])) - 1 ≡ length xs =
      omega (arith, length-append xs (0 ∷ [])) in
    rw (last_is-snoc 0 0 xs, all_but_last) (take-length_append xs (0 ∷ []))

-- A frame that ends in its terminator is decoded without it.
decode_frame-stuffed :
    (body : List ℕ) → decode_frame (cobs_encode body ++ (0 ∷ [])) ≡ decode_body body
unfolding decode_frame
decode_frame-stuffed body =
    rw (some_bytes, strip_terminator-snoc, filled, cobs_decode-cobs_encode) refl
  where
    some_bytes : (length (cobs_encode body ++ (0 ∷ [])) == 0) ≡ false
    some_bytes = ground (arith, length-append (cobs_encode body) (0 ∷ []))

    filled : (length (cobs_encode body) == 0) ≡ false
    filled = ground (arith, length-cobs_encode body)

-- A command byte with at most 253 bytes of payload is encoded, and the frame decodes to both.
pub decode_frame-encode_frame :
    (cmd : ℕ) (payload : List ℕ)
    → cmd < 256
    → length payload ≤ max_payload_bytes
    → (wire : List ℕ) × (encode_frame cmd payload ≡ ok wire)
      × (decode_frame wire ≡ ok (cmd, payload))
decode_frame-encode_frame cmd payload hc hp =
    let crc = crc16_ccitt_false (frame_body cmd payload) in
    (
      cobs_encode (frame_body cmd payload ++ to_u16_le crc) ++ (0 ∷ []),
      encode_frame_fits cmd payload hc hp,
      decode_frame-stuffed (frame_body cmd payload ++ to_u16_le crc)
          ∙ decode_body-frame_body cmd (crc % 256) (crc / 256) payload
          ∙ ground arith,
    )

-- What is sent is bytes that are not 0, and one terminator: the next 0 ends the frame.
pub encode_frame_delimited :
    (cmd : ℕ) (payload wire : List ℕ)
    → All IsByte payload
    → encode_frame cmd payload ≡ ok wire
    → (stuffed : List ℕ) × (wire ≡ stuffed ++ (frame_terminator ∷ [])) × All IsStuffed stuffed
unfolding encode_frame
encode_frame_delimited cmd payload wire hp h = (
  cobs_encode (body ++ to_u16_le (crc16_ccitt_false body)),
  ground arith,
  cobs_encode-IsStuffed (body ++ to_u16_le (crc16_ccitt_false body)) body_bytes,
)
  where
    body : List ℕ
    body = frame_body cmd payload

    in_range : (cmd < 256) × (length payload ≤ 253)
    in_range = ground arith

    front_bytes : All IsByte body
    front_bytes = unfold frame_body in (in_range.0, (omega (arith, in_range.1), hp))

    body_bytes : All IsByte (body ++ to_u16_le (crc16_ccitt_false body))
    body_bytes =
        All-append IsByte body (to_u16_le (crc16_ccitt_false body)) front_bytes
          (omega (arith, crc16_ccitt_false-lt body front_bytes))

-- The encoder refuses exactly what does not fit: a command above 255 or more than 253 bytes.
pub encode_frame_refuses :
    (cmd : ℕ) (payload : List ℕ)
    → (encode_frame cmd payload ≡ err value_error) ↔ ((255 < cmd) ⊎ (253 < length payload))
unfolding encode_frame
encode_frame_refuses cmd payload = (λ h. ground arith, λ h. ground arith)

-- A list that is two longer than n is n elements and two more.
split_tail :
    (n : ℕ) (rest : List ℕ)
    → length rest ≡ n + 2
    → (p : List ℕ) × (x : ℕ) × (y : ℕ) × (rest ≡ p ++ (x ∷ y ∷ [])) × (length p ≡ n)
split_tail n [] e = absurd (omega arith)
split_tail zero (x ∷ []) e = absurd (omega arith)
split_tail zero (x ∷ y ∷ []) e = ([], x, y, refl, refl)
split_tail zero (x ∷ y ∷ z ∷ rest) e = absurd (omega arith)
split_tail (suc n) (b ∷ rest) e =
    let (p, x, y, parts, len) = split_tail n rest (omega arith) in
    (b ∷ p, x, y, ap (λ t. b ∷ t) parts, ap suc len)

-- The outcome of the checksum test, read backwards.
accepted :
    (test : Bool) (c cmd : ℕ) (p payload : List ℕ)
    → if◌then◌else◌ {A = Result (ℕ × List ℕ)} test (ok (c, p)) (err (frame_error crc_mismatch))
      ≡ ok (cmd, payload)
    → (test ≡ true) × (c ≡ cmd) × (p ≡ payload)
accepted test c cmd p payload h = ground arith

length_test :
    (c n cmd : ℕ) (rest payload : List ℕ)
    → decode_body (c ∷ n ∷ rest) ≡ ok (cmd, payload)
    → length rest ≡ n + 2
unfolding decode_body
length_test c n cmd rest payload h = ground arith

-- What is accepted has the shape of a frame, with the checksum of its body behind it.
decode_body_shape :
    (decoded : List ℕ) (cmd : ℕ) (payload : List ℕ)
    → decode_body decoded ≡ ok (cmd, payload)
    → (x : ℕ) × (y : ℕ) × (decoded ≡ frame_body cmd payload ++ (x ∷ y ∷ []))
      × (from_le (x ∷ y ∷ []) ≡ crc16_ccitt_false (frame_body cmd payload))
decode_body_shape [] cmd payload h = unfold decode_body in cc
decode_body_shape (c ∷ []) cmd payload h = unfold decode_body in cc
decode_body_shape (c ∷ n ∷ rest) cmd payload h =
    let (p, x, y, parts, len) = split_tail n rest (length_test c n cmd rest payload h) in
    let framed : c ∷ n ∷ rest ≡ frame_body c p ++ (x ∷ y ∷ []) =
      unfold frame_body in
      ap (λ r. c ∷ n ∷ r) parts ∙ ap (λ (m : ℕ). c ∷ m ∷ (p ++ (x ∷ y ∷ []))) (sym len) in
    let (test, same_cmd, same_payload) =
      accepted _ c cmd p payload
        (sym (decode_body-frame_body c x y p) ∙ sym (ap decode_body framed) ∙ h) in
    (x, y, framed ∙ cc (same_cmd, same_payload), ==→eq _ _ test ∙ cc (same_cmd, same_payload))

-- Of lists of bytes `decode_body` accepts only what `encode_frame` puts under the stuffing.
pub decode_body_canonical :
    (decoded : List ℕ) (cmd : ℕ) (payload : List ℕ)
    → All IsByte decoded
    → decode_body decoded ≡ ok (cmd, payload)
    → decoded ≡ frame_body cmd payload ++ to_u16_le (crc16_ccitt_false (frame_body cmd payload))
decode_body_canonical decoded cmd payload bytes h =
    let (x, y, framed, sum) = decode_body_shape decoded cmd payload h in
    let behind : All IsByte (x ∷ y ∷ []) =
      All-append_right IsByte (frame_body cmd payload) (x ∷ y ∷ [])
        (subst (All IsByte) framed bytes) in
    framed
    ∙ ap (λ l. frame_body cmd payload ++ l)
        (ap₂ (λ (a b : ℕ). a ∷ b ∷ []) (omega (arith, sum, behind)) (omega (arith, sum, behind)))

-- If two neighbouring bytes of command, length or payload of an accepted frame are changed, and all
-- else is received as sent, the frame is not accepted.
pub decode_body_detects_burst :
    (front back : List ℕ) (a b a' b' x y : ℕ) (sent received : ℕ × List ℕ)
    → All IsByte front
    → All IsByte back
    → IsByte a
    → IsByte b
    → IsByte a'
    → IsByte b'
    → decode_body (front ++ (a ∷ b ∷ back) ++ (x ∷ y ∷ [])) ≡ ok sent
    → decode_body (front ++ (a' ∷ b' ∷ back) ++ (x ∷ y ∷ [])) ≡ ok received
    → (a ≡ a') × (b ≡ b')
decode_body_detects_burst front back a b a' b' x y sent received hf hk ha hb ha' hb' h h' =
    crc16_ccitt_false_detects_burst front back a b a' b' hf hk ha hb ha' hb'
      (sum_of (a ∷ b ∷ back) sent h ∙ sym (sum_of (a' ∷ b' ∷ back) received h'))
  where
    sum_of :
        (rest : List ℕ) (got : ℕ × List ℕ)
        → decode_body (front ++ rest ++ (x ∷ y ∷ [])) ≡ ok got
        → crc16_ccitt_false (front ++ rest) ≡ from_le (x ∷ y ∷ [])
    sum_of rest got e =
        let (u, v, framed, sum) = decode_body_shape _ got.0 got.1 e in
        let (same, tail) =
          append_split (front ++ rest) (frame_body got.0 got.1) (x ∷ y ∷ []) (u ∷ v ∷ []) refl
            framed in
        ap crc16_ccitt_false same ∙ sym sum ∙ ap from_le (sym tail)
