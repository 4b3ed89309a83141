-- ===== src/Node/Tests/Air.antt =====
-- A message over the noisy link at a concrete input.
use rfmesh_workspace.Base.{
  ℕ, zero, suc, ◌%◌, ◌≡◌, refl, List, [], ◌∷◌, none, All, arith, length, length-replicate,
  replicate,
}
use rfmesh_workspace.Base.Results.{ok}
use rfmesh_workspace.Dsss.Framing.{FrameContents}
use rfmesh_workspace.Dsss.Spreading.{Sample, Chip, plus, minus}
use rfmesh_workspace.Dsss.Spreading.Noise.{IsWeak, add_noise, join_blocks}
use rfmesh_workspace.Node.Comms.{CommsLoop, sum, strip_padding}
use rfmesh_workspace.Node.Airlink.{encode_and_spread, despread_and_decode, chips_per_frame}
use rfmesh_workspace.Node.Airlink.Noise.{despread_and_decode-encode_and_spread}

abbrev near : CommsLoop
near = record {
  self_node_id = 97 ∷ 98 ∷ [];
  peer_node_id = 99 ∷ [];
  frame_payload_max_bytes = 4;
  waiting = [];
  frames_sent = 300;
  frames_received = 0;
  frames_dropped = 0;
  last_rx_t_unix_ns = none;
  last_tx_t_unix_ns = none;
}

abbrev far : CommsLoop
far = record near { self_node_id = 99 ∷ []; peer_node_id = 97 ∷ 98 ∷ [] }

abbrev chips_sent : List Chip
chips_sent = plus ∷ minus ∷ minus ∷ []

-- Two units of noise on each symbol, all on the middle chip.
abbrev hiss : List Sample
hiss = record { up = 0; down = 0 } ∷ record { up = 0; down = 2 } ∷ record { up = 0; down = 0 } ∷ []

abbrev noise_blocks : List (List Sample)
noise_blocks = replicate 176 hiss

hiss-IsWeak : (count : ℕ) → All (IsWeak chips_sent) (replicate count hiss)
hiss-IsWeak zero = tt
hiss-IsWeak (suc count) = ((refl, omega arith), hiss-IsWeak count)

despread_and_decode-encode_and_spread_example :
    (chips : List Sample) × (contents : FrameContents) × (encode_and_spread near chips_sent
        (104 ∷ 105 ∷ [])
      ≡ ok chips)
    × (length chips ≡ chips_per_frame 4 chips_sent)
    × (despread_and_decode far chips_sent (add_noise chips (join_blocks noise_blocks))
        ≡ ok contents)
    × (contents.src_node_id ≡ sum (97 ∷ 98 ∷ []) % 256)
    × (contents.dst_node_id ≡ sum (99 ∷ []) % 256)
    × (contents.sequence_no ≡ 300 % 256)
    × (strip_padding contents.payload ≡ strip_padding (104 ∷ 105 ∷ []))
despread_and_decode-encode_and_spread_example =
    despread_and_decode-encode_and_spread near far chips_sent (104 ∷ 105 ∷ []) noise_blocks
      (omega arith, (omega arith, tt)) (omega arith) (omega arith) (omega arith) refl (omega arith)
      (length-replicate {A = List Sample} 176 hiss) (hiss-IsWeak 176)
