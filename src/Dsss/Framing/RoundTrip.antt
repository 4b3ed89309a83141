-- ===== src/Dsss/Framing/RoundTrip.antt =====
-- A frame of the spread-spectrum link, encoded and decoded.
use rfmesh_workspace.Base.{
  ℕ, suc, ◌+◌, ◌-◌, ◌*◌, ◌≤◌, ◌<◌, ◌≡◌, refl, sym, ap, ◌∙◌, List, [], ◌∷◌, ◌++◌, none, some, false,
  ltb, ◌==◌, length, slice, arith, All, append_assoc, append-nil, length-append, ==_refl,
  take-length_append, drop-length_append, All-append,
}
use rfmesh_workspace.Servo.Crc.Detection.{IsByte, crc16_ccitt_false-lt}
use rfmesh_workspace.Dsss.Errors.{ok, err}
use rfmesh_workspace.Dsss.Pn.{
  generate_m_sequence, validate_lfsr_params, lfsr_bits, lfsr_step, feedback, feedback_bit_positions,
}
use rfmesh_workspace.Dsss.Crc.{crc16, crc16-crc16_ccitt_false}
use rfmesh_workspace.Dsss.Bits.{bytes_to_bits, length-bytes_to_bits, bits_to_bytes-bytes_to_bits}
use rfmesh_workspace.Dsss.Framing.{
  preamble_bits, sync_word_bits, encode_frame, decode_frame, decode_from, find_sync_word, scan_sync,
  hamming_distance, count_different, to_u16_be, from_be_loop,
}

abbrev pub preamble : List ℕ
preamble = elim preamble_bits [ ok bits ↦ bits | err e ↦ [] ]

pub preamble_runs : preamble_bits ≡ ok preamble
unfolding preamble_bits generate_m_sequence validate_lfsr_params lfsr_bits lfsr_step feedback
    feedback_bit_positions
preamble_runs = refl

pub length-preamble : length preamble ≡ 64
unfolding preamble_bits generate_m_sequence validate_lfsr_params lfsr_bits lfsr_step feedback
    feedback_bit_positions
length-preamble = refl

-- The windows that begin inside the preamble do not hold the sync word; the one behind it does.
scan_sync-preamble :
    (rest : List ℕ) (n : ℕ)
    → scan_sync (preamble ++ (sync_word_bits ++ rest)) (suc (suc (suc (suc (suc n))))) 60 none 3
      ≡ ok (some 64, 0)
unfolding scan_sync sync_word_bits bytes_to_bits hamming_distance count_different preamble_bits
    generate_m_sequence validate_lfsr_params lfsr_bits lfsr_step feedback feedback_bit_positions
scan_sync-preamble rest n = refl

find_sync_word-preamble :
    (rest : List ℕ) → find_sync_word (preamble ++ (sync_word_bits ++ rest)) 60 ≡ ok 96
unfolding find_sync_word
find_sync_word-preamble rest =
    let bits = preamble ++ (sync_word_bits ++ rest) in
    let sync : length sync_word_bits ≡ 32 = unfold sync_word_bits bytes_to_bits in refl in
    let size : length bits ≡ 96 + length rest = omega (
      arith,
      length-preamble,
      sync,
      length-append preamble (sync_word_bits ++ rest),
      length-append sync_word_bits rest,
    ) in
    let room : ltb (length bits) 92 ≡ false = ground arith in
    let count : length bits - 32 + 1 - 60 ≡ suc (suc (suc (suc (suc (length rest))))) =
      omega arith in
    rw (room, count, scan_sync-preamble rest (length rest)) refl

-- A slice that begins behind xs and is as long as ys.
slice-middle :
    (xs ys zs : List ℕ) (i j : ℕ)
    → i ≡ length xs
    → j ≡ i + length ys
    → slice (xs ++ (ys ++ zs)) i j ≡ ys
slice-middle xs ys zs i j hi hj =
    let count : j - i ≡ length ys = omega arith in
    rw (count, hi, drop-length_append xs (ys ++ zs)) (take-length_append ys zs)

slice-last :
    (xs ys : List ℕ) (i j : ℕ) → i ≡ length xs → j ≡ i + length ys → slice (xs ++ ys) i j ≡ ys
slice-last xs ys i j hi hj =
    ap (λ tail. slice (xs ++ tail) i j) (sym (append-nil ys)) ∙ slice-middle xs ys [] i j hi hj

crc16-lt : (bytes : List ℕ) → All IsByte bytes → crc16 bytes < 65536
crc16-lt bytes h = rw (crc16-crc16_ccitt_false bytes) (crc16_ccitt_false-lt bytes h)

from_be_loop-to_u16_be : (n : ℕ) → from_be_loop 0 (to_u16_be n) ≡ n
from_be_loop-to_u16_be n = omega arith

decode_from_written :
    (front : List ℕ) (src dst seq : ℕ) (payload : List ℕ) (bound : ℕ)
    → All IsByte (src ∷ dst ∷ seq ∷ length payload ∷ [])
    → All IsByte payload
    → length payload ≤ bound
    → decode_from
        (front
          ++ (bytes_to_bits (src ∷ dst ∷ seq ∷ length payload ∷ [])
              ++ (bytes_to_bits payload
                  ++ bytes_to_bits
                      (to_u16_be (crc16 ((src ∷ dst ∷ seq ∷ length payload ∷ []) ++ payload))))))
        bound
        (length front)
      ≡ ok (record { src_node_id = src; dst_node_id = dst; sequence_no = seq; payload = payload })
unfolding decode_from
decode_from_written front src dst seq payload bound hh hp fits =
    let header : List ℕ = src ∷ dst ∷ seq ∷ length payload ∷ [] in
    let crc = crc16 (header ++ payload) in
    let H = bytes_to_bits header in
    let Q = bytes_to_bits payload in
    let C = bytes_to_bits (to_u16_be crc) in
    let bits = front ++ (H ++ (Q ++ C)) in
    let crc_small : crc < 65536 =
      crc16-lt (header ++ payload) (All-append IsByte header payload hh hp) in
    let crc_bytes : All IsByte (to_u16_be crc) = (omega arith, (omega arith, tt)) in
    let nH : length H ≡ 32 = length-bytes_to_bits header in
    let nQ : length Q ≡ 8 * length payload = length-bytes_to_bits payload in
    let nC : length C ≡ 16 = length-bytes_to_bits (to_u16_be crc) in
    let size : length bits ≡ length front + 32 + 8 * length payload + 16 = omega (
      arith,
      nH,
      nQ,
      nC,
      length-append front (H ++ (Q ++ C)),
      length-append H (Q ++ C),
      length-append Q C,
    ) in
    let i = length front in
    let long : ltb (length bits) (i + 32 + 16) ≡ false = ground arith in
    let whole : ltb (length bits) (i + 32 + length payload * 8 + 16) ≡ false = ground arith in
    let allowed : ltb bound (length payload) ≡ false = ground arith in
    let header_here : slice bits i (i + 32) ≡ H =
      slice-middle front H (Q ++ C) i (i + 32) refl (omega arith) in
    let payload_here : slice bits (i + 32) (i + 32 + length payload * 8) ≡ Q =
      ap (λ bs. slice bs (i + 32) (i + 32 + length payload * 8))
        (sym (append_assoc front H (Q ++ C)))
      ∙ slice-middle (front ++ H) Q C (i + 32) (i + 32 + length payload * 8)
          (omega (arith, length-append front H)) (omega arith) in
    let crc_here : slice bits (i + 32 + length payload * 8) (i + 32 + length payload * 8 + 16) ≡ C =
      ap (λ bs. slice bs (i + 32 + length payload * 8) (i + 32 + length payload * 8 + 16))
        (sym (append_assoc front H (Q ++ C)) ∙ sym (append_assoc (front ++ H) Q C))
      ∙ slice-last ((front ++ H) ++ Q) C _ _
          (omega (arith, nH, nQ, length-append (front ++ H) Q, length-append front H))
          (omega arith) in
    rw
      (
        long,
        header_here,
        bits_to_bytes-bytes_to_bits header hh,
        allowed,
        whole,
        payload_here,
        bits_to_bytes-bytes_to_bits payload hp,
        crc_here,
        bits_to_bytes-bytes_to_bits (to_u16_be crc) crc_bytes,
        from_be_loop-to_u16_be crc,
        ==_refl crc,
      )
      refl

-- A frame whose three fields are bytes and whose payload of bytes fits the link's bound and the
-- length byte is encoded, and decoding what was encoded, under the same bound, gives the fields and
-- the payload back.
pub encode_frame_roundtrip :
    (src dst seq : ℕ) (payload : List ℕ) (payload_max_bytes : ℕ)
    → IsByte src
    → IsByte dst
    → IsByte seq
    → All IsByte payload
    → length payload < 256
    → length payload ≤ payload_max_bytes
    → 0 < payload_max_bytes
    → (bits : List ℕ) × (encode_frame src dst seq payload payload_max_bytes ≡ ok bits)
      × (decode_frame bits payload_max_bytes
          ≡ ok (record {
            src_node_id = src;
            dst_node_id = dst;
            sequence_no = seq;
            payload = payload;
          }))
unfolding encode_frame decode_frame
encode_frame_roundtrip src dst seq payload payload_max_bytes hs hd hq hp short fits positive =
    let header : List ℕ = src ∷ dst ∷ seq ∷ length payload ∷ [] in
    let body =
      bytes_to_bits header
      ++ (bytes_to_bits payload ++ bytes_to_bits (to_u16_be (crc16 (header ++ payload)))) in
    let s_ok : ltb 0xff src ≡ false = ground arith in
    let d_ok : ltb 0xff dst ≡ false = ground arith in
    let q_ok : ltb 0xff seq ≡ false = ground arith in
    let bound_ok : ltb payload_max_bytes (length payload) ≡ false = ground arith in
    let positive_ok : (payload_max_bytes == 0) ≡ false = ground arith in
    let short_ok : ltb 0xff (length payload) ≡ false = ground arith in
    let sync : length sync_word_bits ≡ 32 = unfold sync_word_bits bytes_to_bits in refl in
    let front : length (preamble ++ sync_word_bits) ≡ 96 =
      omega (arith, length-preamble, sync, length-append preamble sync_word_bits) in
    (
      preamble ++ (sync_word_bits ++ body),
      rw (s_ok, d_ok, q_ok, bound_ok, positive_ok, short_ok, preamble_runs) refl,
      rw (find_sync_word-preamble body) (
          ap (λ bits. decode_from bits payload_max_bytes 96)
            (sym (append_assoc preamble sync_word_bits body))
          ∙ ap (decode_from ((preamble ++ sync_word_bits) ++ body) payload_max_bytes) (sym front)
          ∙ decode_from_written (preamble ++ sync_word_bits) src dst seq payload payload_max_bytes
              (hs, (hd, (hq, (short, tt)))) hp fits),
    )
