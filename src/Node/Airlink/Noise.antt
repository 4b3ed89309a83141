-- ===== src/Node/Airlink/Noise.antt =====
-- A message over a noisy link, from one comms loop to its peer.
use native.Mathlib.Nat.{mul_comm}
use rfmesh_workspace.Base.{
  ℕ, ◌+◌, ◌-◌, ◌*◌, ◌%◌, ◌≤◌, ◌<◌, ◌≡◌, refl, sym, ap, ◌∙◌, bit_and, List, ◌++◌, false, arith, All,
  All-append, length, length-append, length-replicate, replicate, map, ◌==◌,
}
use rfmesh_workspace.Base.Results.{Try, ok, err, ◌>>=◌}
use rfmesh_workspace.Base.Bits.{bit_and_u8}
use rfmesh_workspace.Servo.Crc.Detection.{IsByte}
use rfmesh_workspace.Dsss.Framing.{FrameContents, decode_frame}
use rfmesh_workspace.Dsss.Framing.RoundTrip.{encode_frame_roundtrip}
use rfmesh_workspace.Dsss.Framing.Digits.{encode_frame_digits}
use rfmesh_workspace.Dsss.Spreading.{
  SignalError, Sample, Chip, bpsk_modulate, spread, spread_rows, symbol,
}
use rfmesh_workspace.Dsss.Spreading.Noise.{
  IsBit, IsWeak, add_noise, join_blocks, bpsk_demodulate-despread, length-spread_rows, all_bits-All,
}
use rfmesh_workspace.Node.Comms.{CommsLoop, sum, hash_node_id, encode_padded, strip_padding}
use rfmesh_workspace.Node.Comms.Delivery.{All-replicate, strip_padding-append}
use rfmesh_workspace.Node.Airlink.{
  from_frame, from_signal, encode_and_spread, despread_and_decode, chips_per_frame,
}

-- What is modulated and spread is as long as the digits and the sequence make it.
length-spread :
    (bits : List ℕ) (pn : List Chip) (chips : List Sample)
    → All IsBit bits
    → 0 < length pn
    → (bpsk_modulate bits >>= λ symbols. spread symbols pn) ≡ ok chips
    → length chips ≡ length pn * length bits
unfolding bpsk_modulate spread
length-spread bits pn chips valid positive h =
    let rows = spread_rows (map symbol bits) pn in
    let long : (length pn == 0) ≡ false = ground arith in
    let made : (bpsk_modulate bits >>= λ symbols. spread symbols pn) ≡ ok rows =
      rw (all_bits-All bits valid, long) refl in
    ap length (ok_injective chips rows (sym h ∙ made)) ∙ length-spread_rows pn bits
  where
    ok_injective : (a b : List Sample) → Path (Try SignalError (List Sample)) (ok a) (ok b) → a ≡ b
    ok_injective a b e = cc

frame_chips :
    (digits chips size bound own : ℕ)
    → digits ≡ 144 + 8 * size
    → size ≡ bound
    → own ≡ bound
    → chips * digits ≡ (144 + 8 * own) * chips
frame_chips digits chips size bound own many here same =
    let count : digits ≡ 144 + 8 * own = omega arith in
    ap (λ n. chips * n) count ∙ mul_comm chips (144 + 8 * own)

-- The two steps of the sender in one.
from_signal-chain :
    (first : Try SignalError (List Sample)) (next : List Sample → Try SignalError (List Sample))
    → (from_signal first >>= λ a. from_signal (next a)) ≡ from_signal (first >>= next)
from_signal-chain (err e) next = refl
from_signal-chain (ok a) next = refl

-- A loop whose bound is a positive length byte turns a message of bytes within the bound into the
-- number of chips a peer with that bound reads in a slot. If the noise on each of the frame's symbols
-- is weaker, its magnitudes added up, than the spreading sequence is long in units of a chip, the peer
-- decodes what arrives to contents with the sender's and the peer's hashed ids, the count of frames
-- modulo 256 and, behind the padding, the message with its own trailing bytes 0 stripped.
pub despread_and_decode-encode_and_spread :
    (s peer : CommsLoop) (pn : List Chip) (payload : List ℕ) (noise : List (List Sample))
    → All IsByte payload
    → length payload ≤ s.frame_payload_max_bytes
    → 0 < s.frame_payload_max_bytes
    → s.frame_payload_max_bytes < 256
    → peer.frame_payload_max_bytes ≡ s.frame_payload_max_bytes
    → 0 < length pn
    → length noise ≡ 144 + 8 * s.frame_payload_max_bytes
    → All (IsWeak pn) noise
    → (chips : List Sample) × (contents : FrameContents) × (encode_and_spread s pn payload
        ≡ ok chips)
      × (length chips ≡ chips_per_frame peer.frame_payload_max_bytes pn)
      × (despread_and_decode peer pn (add_noise chips (join_blocks noise)) ≡ ok contents)
      × (contents.src_node_id ≡ sum s.self_node_id % 256)
      × (contents.dst_node_id ≡ sum s.peer_node_id % 256)
      × (contents.sequence_no ≡ s.frames_sent % 256)
      × (strip_padding contents.payload ≡ strip_padding payload)
unfolding encode_and_spread despread_and_decode encode_padded chips_per_frame hash_node_id
despread_and_decode-encode_and_spread s peer pn payload noise bytes fits positive small same long
      count weak =
    let bound = s.frame_payload_max_bytes in
    let padding : List ℕ = replicate (bound - length payload) 0 in
    let size : length (payload ++ padding) ≡ bound =
      omega (
        arith,
        length-append payload padding,
        length-replicate {A = ℕ} (bound - length payload) 0,
      ) in
    let src = hash_node_id s.self_node_id in
    let dst = hash_node_id s.peer_node_id in
    let seq = bit_and s.frames_sent 0xff in
    let src_here : src ≡ sum s.self_node_id % 256 = bit_and_u8 (sum s.self_node_id) in
    let dst_here : dst ≡ sum s.peer_node_id % 256 = bit_and_u8 (sum s.peer_node_id) in
    let seq_here : seq ≡ s.frames_sent % 256 = bit_and_u8 s.frames_sent in
    let (bits, encoded, decoded) =
      encode_frame_roundtrip src dst seq (payload ++ padding) bound (omega arith) (omega arith)
        (omega arith)
        (All-append IsByte payload padding bytes (All-replicate (bound - length payload)))
        (omega arith) (omega arith) positive in
    let (digits, many) = encode_frame_digits src dst seq (payload ++ padding) bound bits encoded in
    let (chips, samples, sent, arrived, read) =
      bpsk_demodulate-despread pn bits noise long digits (omega arith) weak in
    (
      chips,
      _,
      rw encoded (
          from_signal-chain (bpsk_modulate bits) (λ symbols. spread symbols pn)
          ∙ ap from_signal sent),
      length-spread bits pn chips digits long sent
          ∙ frame_chips (length bits) (length pn) (length (payload ++ padding)) bound _ many size
              same,
      rw (arrived, read) (ap from_frame (ap (decode_frame bits) same ∙ decoded)),
      src_here,
      dst_here,
      seq_here,
      strip_padding-append payload (bound - length payload),
    )
