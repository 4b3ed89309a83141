-- ===== src/Node/Comms.antt =====
-- packages/rfmesh-node/src/rfmesh_node/comms/comms_loop.py: the slots that send and receive. What is on
-- the air is the frame's digits. A node id is the list of its UTF-8 bytes.
pub mod Delivery
use rfmesh_workspace.Base.{
  ℕ, ◌+◌, ◌-◌, bit_and, List, [], ◌∷◌, ◌++◌, Option, none, some, Bool, true, false, ◌&&◌, ◌==◌,
  if◌then◌else◌, length, replicate,
}
use rfmesh_workspace.Dsss.Errors.{Result, ok, err}
use rfmesh_workspace.Dsss.Framing.{FrameContents, encode_frame, decode_frame}

-- `_hash_node_id`
abbrev pub sum : List ℕ → ℕ
sum [] = 0
sum (b ∷ bytes) = b + sum bytes

unfoldable pub hash_node_id : List ℕ → ℕ
hash_node_id node_id = bit_and (sum node_id) 0xff

-- The loop's identity and bound, its outbox and its counters.
pub record CommsLoop : Type 0 where
  pub self_node_id : List ℕ
  pub peer_node_id : List ℕ
  pub frame_payload_max_bytes : ℕ
  pub waiting : List (List ℕ)
  pub frames_sent : ℕ
  pub frames_received : ℕ
  pub frames_dropped : ℕ
  pub last_rx_t_unix_ns : Option ℕ
  pub last_tx_t_unix_ns : Option ℕ

-- `_encode_and_spread` up to the digits of the frame.
unfoldable pub encode_padded : CommsLoop → List ℕ → Result (List ℕ)
encode_padded s payload =
    encode_frame (hash_node_id s.self_node_id) (hash_node_id s.peer_node_id)
      (bit_and s.frames_sent 0xff)
      (payload ++ replicate (s.frame_payload_max_bytes - length payload) 0)
      s.frame_payload_max_bytes

-- `_tx_slot` ends with nothing to send, with a frame on the air, or with an exception; `whole` says
-- whether the transmitter took all chips.
pub data Sent : Type 0 where
  idle : Sent
  on_air : List ℕ → Sent
  raised : Sent

sent_frame : Bool → ℕ → Result (List ℕ) → CommsLoop → Sent × CommsLoop
sent_frame whole now (err e) s = (raised, s)
sent_frame false now (ok bits) s = (raised, s)
sent_frame true now (ok bits) s =
    (on_air bits, record s { frames_sent = s.frames_sent + 1; last_tx_t_unix_ns = some now })

send_next : Bool → ℕ → List (List ℕ) → CommsLoop → Sent × CommsLoop
send_next whole now [] s = (idle, s)
send_next whole now (payload ∷ rest) s =
    sent_frame whole now (encode_padded s payload) (record s { waiting = rest })

unfoldable pub tx_slot : Bool → ℕ → CommsLoop → Sent × CommsLoop
unfolding send_next sent_frame
tx_slot whole now s = send_next whole now s.waiting s

-- What `receiver.read` yields: too few chips, an error, or the digits of a frame.
pub data Read : Type 0 where
  too_few failed : Read
  digits : List ℕ → Read

-- `_rx_slot`: the contents for `on_received`, if any.
received : ℕ → Result FrameContents → CommsLoop → Option FrameContents × CommsLoop
received now (err e) s = (none, record s { frames_dropped = s.frames_dropped + 1 })
received now (ok contents) s = (
  some contents,
  record s { frames_received = s.frames_received + 1; last_rx_t_unix_ns = some now },
)

unfoldable pub rx_slot : ℕ → Read → CommsLoop → Option FrameContents × CommsLoop
unfolding received
rx_slot now too_few s = (none, s)
rx_slot now failed s = (none, record s { frames_dropped = s.frames_dropped + 1 })
rx_slot now (digits bits) s = received now (decode_frame bits s.frame_payload_max_bytes) s

-- `strip_padding`: `payload.rstrip(b"\x00")`
abbrev pub is_empty : List ℕ → Bool
is_empty [] = true
is_empty (b ∷ bytes) = false

unfoldable pub strip_padding : List ℕ → List ℕ
strip_padding [] = []
strip_padding (b ∷ bytes) =
    let rest = strip_padding bytes in if b == 0 && is_empty rest then [] else b ∷ rest
