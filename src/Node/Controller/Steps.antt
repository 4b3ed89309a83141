-- ===== src/Node/Controller/Steps.antt =====
-- The controller with its operator's requests in flight: what can happen next, one stretch of code
-- after another, in any order. The steps allow more orders than the event loop does.
use rfmesh_workspace.Base.{ℕ, ◌≡◌, List, [], ◌∷◌, ◌++◌, Option, none, some, Bool, true}
use rfmesh_workspace.Node.Controller.{
  NodeState, manual_hold, parked, Controller, make_controller, check_manual_steer, request_switch,
  switch_timed_out, switch_drained, commit_manual_steer, commit_all_stop, clear_fault,
  send_comms_message, enter_mode, leave_mode, run_sweeping, run_acquired_peer, move_servo,
  drop_target, expire_manual_hold,
}

-- A request between its awaits: it waits for the drain, or it switched and is still to be committed.
pub data Request (Angle : Type 0) : Type 0 where
  steer_waits steer_switched : Angle → Request Angle
  stop_waits stop_switched : ℕ → Request Angle

module _ {Angle : Type 0} where
  abbrev pub switched : Request Angle → Request Angle
  switched (steer_waits a) = steer_switched a
  switched (stop_waits r) = stop_switched r
  switched x = x

  abbrev pub mode_of : Request Angle → NodeState
  mode_of (steer_waits a) = manual_hold
  mode_of (steer_switched a) = manual_hold
  mode_of _ = parked

module _ {Angle : Type 0} (le : Angle → Angle → Bool) where
  pub data Step
      : Controller Angle
        → List (Request Angle)
        → Controller Angle
        → List (Request Angle)
        → Type 0 where
    steer :
        {s : Controller Angle} {rs : List (Request Angle)} (a : Angle)
        → check_manual_steer le s a ≡ none
        → Step s rs (request_switch s) (rs ++ (steer_waits a ∷ []))
    stop :
        {s : Controller Angle} {rs : List (Request Angle)} (r : ℕ)
        → Step s rs (request_switch s) (rs ++ (stop_waits r ∷ []))
    drained :
        {s : Controller Angle} (front back : List (Request Angle)) (x : Request Angle)
        → s.mode_drained ≡ true
        → Step s (front ++ (x ∷ back)) (switch_drained (mode_of x) s) (front ++ (switched x ∷ back))
    timed_out :
        {s : Controller Angle} (front back : List (Request Angle)) (x : Request Angle)
        → Step s (front ++ (x ∷ back)) (switch_timed_out s) (front ++ back)
    steer_commits :
        {s : Controller Angle} (front back : List (Request Angle)) (a : Angle) (expires_at_ns : ℕ)
        → Step s
            (front ++ (steer_switched a ∷ back))
            (commit_manual_steer a expires_at_ns s)
            (front ++ back)
    stop_commits :
        {s : Controller Angle} (front back : List (Request Angle)) (r : ℕ)
        → Step s (front ++ (stop_switched r ∷ back)) (commit_all_stop r s) (front ++ back)
    clears : {s : Controller Angle} {rs : List (Request Angle)} → Step s rs (clear_fault s).1 rs
    sends :
        {s : Controller Angle} {rs : List (Request Angle)} (payload : List ℕ)
        → Step s rs (send_comms_message payload s).1 rs
    enters : {s : Controller Angle} {rs : List (Request Angle)} → Step s rs (enter_mode s) rs
    leaves : {s : Controller Angle} {rs : List (Request Angle)} → Step s rs (leave_mode s) rs
    sweeps : {s : Controller Angle} {rs : List (Request Angle)} → Step s rs (run_sweeping s) rs
    acquires :
        {s : Controller Angle} {rs : List (Request Angle)} → Step s rs (run_acquired_peer s) rs
    moves_to :
        {s : Controller Angle} {rs : List (Request Angle)} (a : Angle)
        → s.manual_hold_target_deg ≡ some a
        → Step s rs (move_servo a s) rs
    drops : {s : Controller Angle} {rs : List (Request Angle)} → Step s rs (drop_target s) rs
    expires :
        {s : Controller Angle} {rs : List (Request Angle)} → Step s rs (expire_manual_hold s) rs

  pub data Run (arc : Option (Angle × Angle))
      : Controller Angle → List (Request Angle) → Type 0 where
    starts :
        (sweep rendezvous : Bool) (comms : Option ℕ)
        → Run arc (make_controller sweep rendezvous arc comms) []
    goes_on :
        {s s' : Controller Angle} {rs rs' : List (Request Angle)}
        → Run arc s rs
        → Step s rs s' rs'
        → Run arc s' rs'
