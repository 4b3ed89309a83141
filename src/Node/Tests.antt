-- ===== src/Node/Tests.antt =====
-- The time slots and the controller at concrete inputs.
pub mod Services
pub mod Air
pub mod Boot
use rfmesh_workspace.Base.{
  ◌||◌, Bool, ◌%◌, ◌+◌, List, ◌∷◌, ℕ, ◌<◌, ◌≡◌, ◌≢◌, inl, ◌==◌, ◌++◌, refl, [], Option, none, some,
  true, false, leb, All, arith,
}
use rfmesh_workspace.Dsss.Framing.{FrameContents}
use rfmesh_workspace.Node.Comms.{CommsLoop, sum, on_air, tx_slot, digits, rx_slot, strip_padding}
use rfmesh_workspace.Node.Dashboard.{fanout, to_drop, drop_all, remove_subscriber}
use rfmesh_workspace.Node.Dashboard.Fanout.{healthy, fanout-healthy, times_in, fanout_count}
use rfmesh_workspace.Node.Bearer.{
  Message, bearing, BothBearer, receive, admit, evict_old, has_seen, same_key,
}
use rfmesh_workspace.Node.Bearer.Dedup.{IsAmong, Call, receive_all, receive_once}
use rfmesh_workspace.Node.Comms.Delivery.{rx_slot-tx_slot}
use rfmesh_workspace.Node.Tdd.{
  SlotSchedule, tx_first, rx_first, tx, kind_at, current_slot, next_slot_boundary_ns,
  boundary_behind,
}
use rfmesh_workspace.Node.Tdd.Skew.{current_slot_exclusive}
use rfmesh_workspace.Node.Tdd.Boundary.{next_slot_boundary_ns-lt, current_slot_constant}
use rfmesh_workspace.Node.Controller.{
  Controller, sweeping, manual_hold, make_controller, check_manual_steer, validate_manual_angle,
  request_switch, switch_timed_out, clear_fault, switch_drained, commit_manual_steer, move_servo,
  leave_mode,
}
use rfmesh_workspace.Node.Controller.Steps.{
  steer_waits, Run, starts, goes_on, steer, leaves, drained, steer_commits, moves_to,
}
use rfmesh_workspace.Node.Controller.Arc.{IsInside, moves-IsInside}

abbrev schedule : SlotSchedule
schedule = record { slot_ns = 100; guard_ns = 20; epoch_unix_ns = 1000; role = tx_first }

sends_at : current_slot (record schedule { role = tx_first }) 1339 ≡ tx
unfolding current_slot kind_at
sends_at = refl

current_slot_exclusive_example : current_slot (record schedule { role = rx_first }) 1359 ≢ tx
current_slot_exclusive_example =
    current_slot_exclusive schedule 1339 1359 (omega arith) (omega arith) sends_at

boundary_at : next_slot_boundary_ns schedule 1130 ≡ 1220
unfolding next_slot_boundary_ns boundary_behind
boundary_at = refl

abbrev arc : Option (ℕ × ℕ)
arc = some (10, 170)

abbrev fresh : Controller ℕ
fresh = make_controller true false arc none

passes : check_manual_steer leb fresh 90 ≡ none
unfolding check_manual_steer validate_manual_angle make_controller
passes = refl

abbrev waiting : Controller ℕ
waiting = leave_mode (request_switch fresh)

abbrev holding : Controller ℕ
holding = commit_manual_steer 90 5000 (switch_drained manual_hold waiting)

aims : holding.manual_hold_target_deg ≡ some 90
unfolding commit_manual_steer
aims = refl

moved : Run leb arc (move_servo 90 holding) []
moved =
    goes_on
      (goes_on
        (goes_on (goes_on (goes_on (starts true false none) (steer 90 passes)) leaves)
          (drained [] [] (steer_waits 90) refl))
        (steer_commits [] [] 90 5000))
      (moves_to 90 aims)

moves-IsInside_example : All (IsInside leb arc) (move_servo 90 holding).moves
moves-IsInside_example = moves-IsInside leb arc (move_servo 90 holding) [] moved

abbrev sender : CommsLoop
sender = record {
  self_node_id = 97 ∷ 98 ∷ [];
  peer_node_id = 99 ∷ [];
  frame_payload_max_bytes = 8;
  waiting = (104 ∷ 105 ∷ []) ∷ [];
  frames_sent = 300;
  frames_received = 0;
  frames_dropped = 0;
  last_rx_t_unix_ns = none;
  last_tx_t_unix_ns = none;
}

rx_slot-tx_slot_example :
    (bits : List ℕ) × (contents : FrameContents) × (tx_slot true 5 sender ≡ (
      on_air bits,
      record sender { waiting = []; frames_sent = 300 + 1; last_tx_t_unix_ns = some 5 },
    ))
    × ((rx_slot 6 (digits bits) (record sender { frames_sent = 0 })).0 ≡ some contents)
    × (contents.src_node_id ≡ sum (97 ∷ 98 ∷ []) % 256)
    × (contents.dst_node_id ≡ sum (99 ∷ []) % 256)
    × (contents.sequence_no ≡ 300 % 256)
    × (strip_padding contents.payload ≡ strip_padding (104 ∷ 105 ∷ []))
rx_slot-tx_slot_example =
    rx_slot-tx_slot 5 6 sender (record sender { frames_sent = 0 }) (104 ∷ 105 ∷ []) [] refl
      (omega arith, (omega arith, tt)) (omega arith) (omega arith) (omega arith) refl

abbrev even_raise : ℕ → Bool
even_raise i = i == 1 || i == 3

fanout-healthy_example :
    fanout even_raise (λ current. current ++ (5 ∷ [])) (1 ∷ 2 ∷ 3 ∷ 2 ∷ [])
    ≡ healthy (λ sub. sub == 2) (1 ∷ 2 ∷ 3 ∷ 2 ∷ []) ++ (5 ∷ [])
fanout-healthy_example =
    fanout-healthy even_raise (λ sub. sub == 2) (1 ∷ 2 ∷ 3 ∷ 2 ∷ []) (5 ∷ [])
      (refl, (refl, (refl, (refl, tt))))

-- The second of two sends to one subscriber raises, and its first registration goes.
second_raises : fanout (λ i. i == 2) (λ current. current) (1 ∷ 2 ∷ 1 ∷ []) ≡ 2 ∷ 1 ∷ []
unfolding fanout to_drop drop_all remove_subscriber
second_raises = refl

fanout_count_example :
    times_in 1 (fanout (λ i. i == 2) (λ current. current ++ (5 ∷ [])) (1 ∷ 2 ∷ 1 ∷ [])) + 1 ≡ 2 + 0
fanout_count_example = fanout_count (λ i. i == 2) (1 ∷ 2 ∷ 1 ∷ []) (5 ∷ []) 1

abbrev report : Message
report = record { node_id = 4; t_unix_ns = 77; kind = bearing }

abbrev bearer : BothBearer
bearer = record {
  dedup_window = 60;
  seen = [];
  lora_available = true;
  wifi_sent = [];
  lora_sent = [];
}

abbrev over_lora : Call
over_lora = record { now = 130; wifi = []; lora = report ∷ [] }

handed_on : IsAmong report (receive 100 (report ∷ []) [] bearer).0
unfolding receive admit evict_old has_seen
handed_on = inl refl

receive_once_example :
    All
      (λ x. same_key x report ≡ false)
      (receive_all (over_lora ∷ []) (receive 100 (report ∷ []) [] bearer).1)
receive_once_example =
    receive_once 100 (report ∷ []) [] bearer report (over_lora ∷ []) handed_on (omega arith, tt)
