-- ===== src/Node/Controller.antt =====
-- packages/rfmesh-node/src/rfmesh_node/controller.py: `NodeController`, cut at its awaits. A function
-- here is a stretch of code that runs without an await; what runs in between is the subject of the
-- step relation in Controller/Steps. Angles are a parameter, with their test `<=`.
pub mod Steps
pub mod Arc
use rfmesh_workspace.Base.{
  ℕ, ◌+◌, List, [], ◌∷◌, ◌++◌, Option, none, some, Bool, true, false, ◌&&◌, if◌then◌else◌, ltb,
  length,
}

pub data NodeState : Type 0 where
  sweeping acquired_peer manual_hold parked fault : NodeState

abbrev pub is_fault : NodeState → Bool
is_fault fault = true
is_fault _ = false

-- The reason in a `command_refused` payload.
pub data Refusal : Type 0 where
  node_is_fault no_arc out_of_arc drain_timeout not_in_fault no_comms_loop payload_too_long :
      Refusal

-- What `status_detail` says.
pub data StatusDetail (Angle : Type 0) : Type 0 where
  blank : StatusDetail Angle
  mode_drain_timeout : NodeState → StatusDetail Angle
  holding : Angle → StatusDetail Angle
  parked_by : ℕ → StatusDetail Angle
  fault_cleared hold_expired no_sweep_loop : StatusDetail Angle

-- The attributes of the controller, with the servo's moves and the comms loop's outbox.
pub record Controller (Angle : Type 0) : Type 0 where
  pub has_sweep_loop : Bool
  pub has_rendezvous_loop : Bool
  pub cal_arc : Option (Angle × Angle)
  -- `frame_payload_max_bytes` of the comms loop, if there is one.
  pub comms_loop : Option ℕ
  pub state : NodeState
  pub status_detail : StatusDetail Angle
  pub manual_hold_expires_at_ns : Option ℕ
  pub manual_hold_target_deg : Option Angle
  pub last_commanded_angle_deg : Option Angle
  pub mode_cancel : Bool
  pub mode_drained : Bool
  pub sweep_resets : ℕ
  pub rendezvous_resets : ℕ
  pub moves : List Angle
  pub outbox : List (List ℕ)

module _ {Angle : Type 0} where
  -- `__init__`
  unfoldable pub make_controller :
      Bool → Bool → Option (Angle × Angle) → Option ℕ → Controller Angle
  make_controller sweep rendezvous arc comms = record {
    has_sweep_loop = sweep;
    has_rendezvous_loop = rendezvous;
    cal_arc = arc;
    comms_loop = comms;
    state = if rendezvous then acquired_peer else if sweep then sweeping else parked;
    status_detail = blank;
    manual_hold_expires_at_ns = none;
    manual_hold_target_deg = none;
    last_commanded_angle_deg = none;
    mode_cancel = false;
    mode_drained = true;
    sweep_resets = 0;
    rendezvous_resets = 0;
    moves = [];
    outbox = [];
  }

  -- `_validate_manual_angle`
  unfoldable pub validate_manual_angle :
      (Angle → Angle → Bool) → Controller Angle → Angle → Option Refusal
  validate_manual_angle le s angle_deg = elim s.cal_arc [
    | none ↦ some no_arc
    | some (lo, hi) ↦ if le lo angle_deg && le angle_deg hi then none else some out_of_arc
  ]

  -- `_dispatch_manual_steer` up to the call of `_switch_mode`.
  unfoldable pub check_manual_steer :
      (Angle → Angle → Bool) → Controller Angle → Angle → Option Refusal
  check_manual_steer le s angle_deg =
      if is_fault s.state then some node_is_fault else validate_manual_angle le s angle_deg

  -- `_switch_mode` up to the wait for the drain.
  abbrev pub request_switch : Controller Angle → Controller Angle
  request_switch s = record s { mode_cancel = true }

  -- `_reset_loop_estimators`
  abbrev pub reset_loop_estimators : Controller Angle → Controller Angle
  reset_loop_estimators s = record s {
    sweep_resets = if s.has_sweep_loop then s.sweep_resets + 1 else s.sweep_resets;
    rendezvous_resets =
        if s.has_rendezvous_loop then s.rendezvous_resets + 1 else s.rendezvous_resets;
  }

  -- `_switch_mode` behind the wait: the timeout, and the drained loop.
  unfoldable pub switch_timed_out : Controller Angle → Controller Angle
  switch_timed_out s = record s { state = fault; status_detail = mode_drain_timeout s.state }

  unfoldable pub switch_drained : NodeState → Controller Angle → Controller Angle
  switch_drained new_mode s =
      record (reset_loop_estimators (record s { mode_cancel = false; mode_drained = false })) {
        state = new_mode;
      }

  -- `_dispatch_manual_steer` and `_dispatch_all_stop` behind a clean switch.
  unfoldable pub commit_manual_steer : Angle → ℕ → Controller Angle → Controller Angle
  commit_manual_steer target expires_at_ns s = record s {
    manual_hold_target_deg = some target;
    manual_hold_expires_at_ns = some expires_at_ns;
    last_commanded_angle_deg = some target;
    status_detail = holding target;
  }

  unfoldable pub commit_all_stop : ℕ → Controller Angle → Controller Angle
  commit_all_stop requestor_id s = record s {
    status_detail = parked_by requestor_id;
    manual_hold_expires_at_ns = none;
    manual_hold_target_deg = none;
  }

  -- `_dispatch_clear_fault`
  unfoldable pub clear_fault : Controller Angle → Option Refusal × Controller Angle
  clear_fault s =
      if is_fault s.state
      then (none, record s { state = sweeping; status_detail = fault_cleared })
      else (some not_in_fault, s)

  -- `_dispatch_send_comms_message`, with `queue_outbound` of comms_loop.py.
  queue_outbound : ℕ → List ℕ → Controller Angle → Option Refusal × Controller Angle
  queue_outbound frame_payload_max_bytes payload s =
      if ltb frame_payload_max_bytes (length payload)
      then (some payload_too_long, s)
      else (none, record s { outbox = s.outbox ++ (payload ∷ []) })

  unfoldable pub send_comms_message : List ℕ → Controller Angle → Option Refusal × Controller Angle
  unfolding queue_outbound
  send_comms_message payload s =
      if is_fault s.state then (some node_is_fault, s) else elim s.comms_loop [
        | none ↦ (some no_comms_loop, s)
        | some bound ↦ queue_outbound bound payload s
      ]

  -- `run`: a mode begins and ends.
  abbrev pub enter_mode : Controller Angle → Controller Angle
  enter_mode s = record s { mode_drained = false }

  abbrev pub leave_mode : Controller Angle → Controller Angle
  leave_mode s = record s { mode_drained = true }

  -- `_run_sweeping` without a sweep loop, and `_run_acquired_peer` without a peer.
  unfoldable pub run_sweeping : Controller Angle → Controller Angle
  run_sweeping s =
      if s.has_sweep_loop then s else record s { state = parked; status_detail = no_sweep_loop }

  unfoldable pub run_acquired_peer : Controller Angle → Controller Angle
  run_acquired_peer s = if s.has_rendezvous_loop then s else record s { state = sweeping }

  -- `_run_manual_hold`: the servo is moved, the target is dropped when the move is over, and the hold
  -- expires if neither a cancel nor a stop comes in time.
  abbrev pub move_servo : Angle → Controller Angle → Controller Angle
  move_servo target s = record s { moves = s.moves ++ (target ∷ []) }

  abbrev pub drop_target : Controller Angle → Controller Angle
  drop_target s = record s { manual_hold_target_deg = none }

  unfoldable pub expire_manual_hold : Controller Angle → Controller Angle
  expire_manual_hold s = record s {
    manual_hold_expires_at_ns = none;
    status_detail = hold_expired;
    state = if s.has_rendezvous_loop then acquired_peer else sweeping;
  }
