-- ===== src/Dsss/Framing.antt =====
-- packages/rfmesh-dsss/src/rfmesh_dsss/framing.py: preamble, sync word, header, payload and checksum
-- as one list of digits.
pub mod RoundTrip
pub mod Digits
use rfmesh_workspace.Base.{
  ℕ, zero, suc, ◌+◌, ◌-◌, ◌*◌, ◌/◌, ◌%◌, List, [], ◌∷◌, ◌++◌, Option, none, some, Bool, true, false,
  not, ltb, ◌==◌, if◌then◌else◌, length, slice, replicate, map,
}
use rfmesh_workspace.Base.Int.{ℤ, pos, eqb_ℤ}
use rfmesh_workspace.Dsss.Errors.{
  Result, ok, err, ◌>>=◌, ◌>>◌, refuse, frame_decode_error, value_error, byte_field,
  payload_too_long, payload_bound, unequal_lengths, no_room_for_sync, no_sync, too_short,
  declared_too_long, truncated, crc_mismatch,
}
use rfmesh_workspace.Dsss.Pn.{generate_m_sequence}
use rfmesh_workspace.Dsss.Crc.{crc16}
use rfmesh_workspace.Dsss.Bits.{bytes_to_bits, bits_to_bytes}

abbrev pub preamble_len_bits : ℕ
preamble_len_bits = 64

abbrev pub header_len_bits : ℕ
header_len_bits = 32

abbrev pub crc_len_bits : ℕ
crc_len_bits = 16

abbrev pub sync_hamming_tolerance : ℕ
sync_hamming_tolerance = 2

abbrev pub broadcast_dst : ℕ
broadcast_dst = 0xff

pub record FrameContents : Type 0 where
  pub src_node_id : ℕ
  pub dst_node_id : ℕ
  pub sequence_no : ℕ
  pub payload : List ℕ

-- `_byte_field_check`; the fields are natural numbers.
abbrev pub byte_field_check : ℕ → Result (Unit {0})
byte_field_check value = refuse (ltb 0xff value) (frame_decode_error byte_field)

-- `_preamble_bits`
unfoldable pub preamble_bits : Result (List ℕ)
preamble_bits = do
  m_seq ← generate_m_sequence 6 (6 ∷ 1 ∷ []) 1
  let bits = map (λ c. if eqb_ℤ c (pos 1) then 0 else 1) m_seq
  ok (bits ++ replicate (preamble_len_bits - length bits) 0)

-- `value.to_bytes(2, byteorder="big")` and `int.from_bytes(_, byteorder="big")`
abbrev pub to_u16_be : ℕ → List ℕ
to_u16_be n = (n / 256) ∷ (n % 256) ∷ []

abbrev pub from_be_loop : ℕ → List ℕ → ℕ
from_be_loop acc [] = acc
from_be_loop acc (b ∷ bytes) = from_be_loop (acc * 256 + b) bytes

-- `_sync_word_bits`: 0x1ACFFC1D
unfoldable pub sync_word_bits : List ℕ
sync_word_bits = bytes_to_bits (0x1a ∷ 0xcf ∷ 0xfc ∷ 0x1d ∷ [])

unfoldable pub encode_frame : ℕ → ℕ → ℕ → List ℕ → ℕ → Result (List ℕ)
encode_frame src_node_id dst_node_id sequence_no payload payload_max_bytes = do
  byte_field_check src_node_id
  byte_field_check dst_node_id
  byte_field_check sequence_no
  refuse (ltb payload_max_bytes (length payload)) (frame_decode_error payload_too_long)
  refuse (payload_max_bytes == 0) (frame_decode_error payload_bound)
  -- `bytes([...])` raises `ValueError` for a length above 255.
  refuse (ltb 0xff (length payload)) value_error
  let header_bytes = src_node_id ∷ dst_node_id ∷ sequence_no ∷ length payload ∷ []
  let crc = crc16 (header_bytes ++ payload)
  preamble ← preamble_bits
  ok (
      preamble
      ++ (sync_word_bits
          ++ (bytes_to_bits header_bytes
              ++ (bytes_to_bits payload ++ bytes_to_bits (to_u16_be crc)))))

-- `np.count_nonzero(a != b)` of arrays of one length.
unfoldable pub count_different : List ℕ → List ℕ → ℕ
count_different [] ys = 0
count_different (x ∷ xs) [] = 0
count_different (x ∷ xs) (y ∷ ys) =
    let rest = count_different xs ys in if x == y then rest else suc rest

unfoldable pub hamming_distance : List ℕ → List ℕ → Result ℕ
hamming_distance a b = do
  refuse (not (length a == length b)) (frame_decode_error unequal_lengths)
  ok (count_different a b)

-- The loop of `find_sync_word` over the `count` indices from `i`, with the best start and distance
-- so far; `none` is the start -1.
unfoldable pub scan_sync : List ℕ → ℕ → ℕ → Option ℕ → ℕ → Result (Option ℕ × ℕ)
scan_sync bits zero i best_start best_dist = ok (best_start, best_dist)
scan_sync bits (suc count) i best_start best_dist = do
  dist ← hamming_distance (slice bits i (i + 32)) sync_word_bits
  let better = scan_sync bits count (i + 1) (some i) dist
  let kept = scan_sync bits count (i + 1) best_start best_dist
  if ltb dist best_dist then (if dist == 0 then ok (some i, dist) else better) else kept

abbrev pub found : Option ℕ × ℕ → Result ℕ
found (none, best_dist) = err (frame_decode_error no_sync)
found (some best_start, best_dist) = do
  refuse (ltb sync_hamming_tolerance best_dist) (frame_decode_error no_sync)
  ok (best_start + 32)

unfoldable pub find_sync_word : List ℕ → ℕ → Result ℕ
find_sync_word bits search_start = do
  refuse (ltb (length bits) (search_start + 32)) (frame_decode_error no_room_for_sync)
  best ←
      scan_sync bits (length bits - 32 + 1 - search_start) search_start none
        (sync_hamming_tolerance + 1)
  found best

-- The header's four bytes; another number of them does not come up behind the length test.
abbrev pub unpack_header : List ℕ → Result (ℕ × ℕ × ℕ × ℕ)
unpack_header (src ∷ dst ∷ seq ∷ len ∷ []) = ok (src, dst, seq, len)
unpack_header _ = err (frame_decode_error too_short)

-- `decode_frame` behind the sync word, which ends at `header_start`.
unfoldable pub decode_from : List ℕ → ℕ → ℕ → Result FrameContents
decode_from bits payload_max_bytes header_start = do
  refuse (ltb (length bits) (header_start + header_len_bits + crc_len_bits))
      (frame_decode_error too_short)
  header_bytes ← bits_to_bytes (slice bits header_start (header_start + header_len_bits))
  (src_node_id, dst_node_id, sequence_no, declared_len) ← unpack_header header_bytes
  refuse (ltb payload_max_bytes declared_len) (frame_decode_error declared_too_long)
  let payload_start = header_start + header_len_bits
  let payload_end = payload_start + declared_len * 8
  let crc_end = payload_end + crc_len_bits
  refuse (ltb (length bits) crc_end) (frame_decode_error truncated)
  payload ← bits_to_bytes (slice bits payload_start payload_end)
  crc_bytes ← bits_to_bytes (slice bits payload_end crc_end)
  let received_crc = from_be_loop 0 crc_bytes
  refuse (not (received_crc == crc16 (header_bytes ++ payload))) (frame_decode_error crc_mismatch)
  ok (record {
    src_node_id = src_node_id;
    dst_node_id = dst_node_id;
    sequence_no = sequence_no;
    payload = payload;
  })

unfoldable pub decode_frame : List ℕ → ℕ → Result FrameContents
decode_frame bits payload_max_bytes = do
  header_start ← find_sync_word bits (preamble_len_bits - 4)
  decode_from bits payload_max_bytes header_start
