-- ===== src/Node/Comms/Delivery.antt =====
-- A message on its way from the outbox of one comms loop to its peer.
use rfmesh_workspace.Base.{
  ℕ, zero, suc, ◌+◌, ◌-◌, ◌%◌, ◌≤◌, ◌<◌, ◌≡◌, refl, ap, ◌∙◌, bit_and, List, [], ◌∷◌, ◌++◌, some,
  true, arith, All, All-append, length, length-append, length-replicate, replicate,
}
use rfmesh_workspace.Base.Bits.{bit_and_u8}
use rfmesh_workspace.Servo.Crc.Detection.{IsByte}
use rfmesh_workspace.Dsss.Framing.{FrameContents, decode_frame}
use rfmesh_workspace.Dsss.Framing.RoundTrip.{encode_frame_roundtrip}
use rfmesh_workspace.Node.Comms.{
  CommsLoop, sum, hash_node_id, encode_padded, on_air, tx_slot, send_next, sent_frame, digits,
  rx_slot, received, strip_padding,
}

strip_padding-replicate : (k : ℕ) → strip_padding (replicate k 0) ≡ []
unfolding strip_padding
strip_padding-replicate zero = refl
strip_padding-replicate (suc k) = rw (strip_padding-replicate k) refl

pub strip_padding-append :
    (payload : List ℕ) (k : ℕ) → strip_padding (payload ++ replicate k 0) ≡ strip_padding payload
unfolding strip_padding
strip_padding-append [] k = strip_padding-replicate k
strip_padding-append (b ∷ payload) k = rw (strip_padding-append payload k) refl

pub All-replicate : (k : ℕ) → All IsByte (replicate k 0)
All-replicate zero = tt
All-replicate (suc k) = (omega arith, All-replicate k)

-- If a loop has a message of bytes within its bound waiting, the bound is a length byte and the
-- transmitter takes all chips, one slot puts one frame on the air and takes the message from the
-- outbox; a peer with the same bound that reads the frame hands on contents with the sender's and the
-- peer's hashed ids, the count of frames modulo 256 and, behind the padding, the message with its
-- own trailing bytes 0 stripped.
pub rx_slot-tx_slot :
    (now later : ℕ) (s peer : CommsLoop) (payload : List ℕ) (rest : List (List ℕ))
    → s.waiting ≡ payload ∷ rest
    → All IsByte payload
    → length payload ≤ s.frame_payload_max_bytes
    → 0 < s.frame_payload_max_bytes
    → s.frame_payload_max_bytes < 256
    → peer.frame_payload_max_bytes ≡ s.frame_payload_max_bytes
    → (bits : List ℕ) × (contents : FrameContents) × (tx_slot true now s ≡ (
      on_air bits,
      record s { waiting = rest; frames_sent = s.frames_sent + 1; last_tx_t_unix_ns = some now },
    ))
      × ((rx_slot later (digits bits) peer).0 ≡ some contents)
      × (contents.src_node_id ≡ sum s.self_node_id % 256)
      × (contents.dst_node_id ≡ sum s.peer_node_id % 256)
      × (contents.sequence_no ≡ s.frames_sent % 256)
      × (strip_padding contents.payload ≡ strip_padding payload)
unfolding tx_slot send_next sent_frame encode_padded rx_slot received hash_node_id
rx_slot-tx_slot now later s peer payload rest first bytes fits positive small same =
    let bound = s.frame_payload_max_bytes in
    let padding : List ℕ = replicate (bound - length payload) 0 in
    let size : length (payload ++ padding) ≡ bound =
      omega (
        arith,
        length-append payload padding,
        length-replicate {A = ℕ} (bound - length payload) 0,
      ) in
    let src = hash_node_id s.self_node_id in
    let dst = hash_node_id s.peer_node_id in
    let seq = bit_and s.frames_sent 0xff in
    let src_here : src ≡ sum s.self_node_id % 256 = bit_and_u8 (sum s.self_node_id) in
    let dst_here : dst ≡ sum s.peer_node_id % 256 = bit_and_u8 (sum s.peer_node_id) in
    let seq_here : seq ≡ s.frames_sent % 256 = bit_and_u8 s.frames_sent in
    let (bits, encoded, decoded) =
      encode_frame_roundtrip src dst seq (payload ++ padding) bound (omega arith) (omega arith)
        (omega arith)
        (All-append IsByte payload padding bytes (All-replicate (bound - length payload)))
        (omega arith) (omega arith) positive in
    (
      bits,
      _,
      rw (first, encoded) refl,
      ap (λ got. (received later got peer).0) (ap (decode_frame bits) same ∙ decoded),
      src_here,
      dst_here,
      seq_here,
      strip_padding-append payload (bound - length payload),
    )
