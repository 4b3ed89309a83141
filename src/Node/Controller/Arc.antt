-- ===== src/Node/Controller/Arc.antt =====
-- Manual steering and the calibrated arc of the controller.
use mathlib.Core.Path.{subst}
use rfmesh_workspace.Base.{
  ℕ, ◌≡◌, refl, ◌∙◌, List, [], ◌∷◌, ◌++◌, Option, none, some, Bool, true, ◌&&◌, All, All-append,
  All-append_left, All-append_right, Bool-cases, Option-cases, inl, inr, ltb, length,
}
use rfmesh_workspace.Node.Controller.{
  node_is_fault, no_arc, out_of_arc, Controller, make_controller, validate_manual_angle,
  check_manual_steer, switch_timed_out, switch_drained, commit_manual_steer, commit_all_stop,
  clear_fault, send_comms_message, queue_outbound, run_sweeping, run_acquired_peer,
  expire_manual_hold, is_fault,
}
use rfmesh_workspace.Node.Controller.Steps.{
  Request, steer_waits, steer_switched, stop_waits, stop_switched, switched, Step, steer, stop,
  drained, timed_out, steer_commits, stop_commits, clears, sends, enters, leaves, sweeps, acquires,
  moves_to, drops, expires, Run, starts, goes_on,
}

module _ {Angle : Type 0} (le : Angle → Angle → Bool) where
  abbrev pub IsInside : Option (Angle × Angle) → Angle → Type 0
  IsInside none a = ⊥
  IsInside (some (lo, hi)) a = (le lo a && le a hi) ≡ true

  abbrev IsAimed : Option (Angle × Angle) → Request Angle → Type 0
  IsAimed arc (steer_waits a) = IsInside arc a
  IsAimed arc (steer_switched a) = IsInside arc a
  IsAimed arc (stop_waits r) = Unit
  IsAimed arc (stop_switched r) = Unit

  abbrev IsTargeted : Option (Angle × Angle) → Option Angle → Type 0
  IsTargeted arc none = Unit
  IsTargeted arc (some a) = IsInside arc a

  record Safe (arc : Option (Angle × Angle)) (s : Controller Angle) (rs : List (Request Angle))
      : Type 0 where
    same_arc : s.cal_arc ≡ arc
    moved : All (IsInside arc) s.moves
    targeted : IsTargeted arc s.manual_hold_target_deg
    aimed : All (IsAimed arc) rs

  -- What the requests see of a controller: its arc, its moves and its target.
  record Agrees (s s' : Controller Angle) : Type 0 where
    arcs : s'.cal_arc ≡ s.cal_arc
    moves : s'.moves ≡ s.moves
    targets : s'.manual_hold_target_deg ≡ s.manual_hold_target_deg

  clear_fault-Agrees : (s : Controller Angle) → Agrees s (clear_fault s).1
  unfolding clear_fault
  clear_fault-Agrees s = elim (Bool-cases (is_fault s.state)) [
    | inl down ↦ rw down (record { arcs = refl; moves = refl; targets = refl })
    | inr up ↦ rw up (record { arcs = refl; moves = refl; targets = refl })
  ]

  send_comms_message-Agrees :
      (payload : List ℕ) (s : Controller Angle) → Agrees s (send_comms_message payload s).1
  unfolding send_comms_message queue_outbound
  send_comms_message-Agrees payload s = elim (Bool-cases (is_fault s.state)) [
    | inl down ↦ rw down (record { arcs = refl; moves = refl; targets = refl })
    | inr up ↦ elim (Option-cases s.comms_loop) [
      | inl missing ↦ rw (up, missing) (record { arcs = refl; moves = refl; targets = refl })
      | inr (bound, there) ↦ elim (Bool-cases (ltb bound (length payload))) [
        | inl long ↦ rw (up, there, long) (record { arcs = refl; moves = refl; targets = refl })
        | inr fits ↦ rw (up, there, fits) (record { arcs = refl; moves = refl; targets = refl })
      ]
    ]
  ]

  run_sweeping-Agrees : (s : Controller Angle) → Agrees s (run_sweeping s)
  unfolding run_sweeping
  run_sweeping-Agrees s = elim (Bool-cases s.has_sweep_loop) [
    | inl there ↦ rw there (record { arcs = refl; moves = refl; targets = refl })
    | inr missing ↦ rw missing (record { arcs = refl; moves = refl; targets = refl })
  ]

  run_acquired_peer-Agrees : (s : Controller Angle) → Agrees s (run_acquired_peer s)
  unfolding run_acquired_peer
  run_acquired_peer-Agrees s = elim (Bool-cases s.has_rendezvous_loop) [
    | inl there ↦ rw there (record { arcs = refl; moves = refl; targets = refl })
    | inr missing ↦ rw missing (record { arcs = refl; moves = refl; targets = refl })
  ]

  Safe-Agrees :
      (arc : Option (Angle × Angle)) (s s' : Controller Angle) (rs : List (Request Angle))
      → Safe arc s rs
      → Agrees s s'
      → Safe arc s' rs
  Safe-Agrees arc s s' rs h same = record {
    same_arc = same.arcs ∙ h.same_arc;
    moved = rw same.moves h.moved;
    targeted = rw same.targets h.targeted;
    aimed = h.aimed;
  }

  -- An angle that passes the check lies in the arc.
  check_manual_steer-IsInside :
      (arc : Option (Angle × Angle)) (s : Controller Angle) (a : Angle)
      → s.cal_arc ≡ arc
      → check_manual_steer le s a ≡ none
      → IsInside arc a
  unfolding check_manual_steer validate_manual_angle
  check_manual_steer-IsInside none s a same passed = elim (Bool-cases (is_fault s.state)) [
    | inl down ↦
        let refused : check_manual_steer le s a ≡ some node_is_fault = rw down refl in absurd (cc)
    | inr up ↦
        let refused : check_manual_steer le s a ≡ some no_arc = rw (up, same) refl in absurd (cc)
  ]
  check_manual_steer-IsInside (some (lo, hi)) s a same passed =
      elim (Bool-cases (is_fault s.state)) [
        | inl down ↦
            let refused : check_manual_steer le s a ≡ some node_is_fault = rw down refl in
            absurd (cc)
        | inr up ↦ elim (Bool-cases (le lo a && le a hi)) [
          | inl inside ↦ inside
          | inr outside ↦
              let refused : check_manual_steer le s a ≡ some out_of_arc =
                rw (up, same, outside) refl in
              absurd (cc)
        ]
      ]

  switched-IsAimed :
      (arc : Option (Angle × Angle)) (x : Request Angle) → IsAimed arc x → IsAimed arc (switched x)
  switched-IsAimed arc (steer_waits a) h = h
  switched-IsAimed arc (steer_switched a) h = h
  switched-IsAimed arc (stop_waits r) h = h
  switched-IsAimed arc (stop_switched r) h = h

  without :
      (arc : Option (Angle × Angle)) (front back : List (Request Angle)) (x : Request Angle)
      → All (IsAimed arc) (front ++ (x ∷ back))
      → All (IsAimed arc) (front ++ back)
  without arc front back x h =
      All-append (IsAimed arc) front back (All-append_left (IsAimed arc) front (x ∷ back) h)
        (All-append_right (IsAimed arc) front (x ∷ back) h).1

  Safe-Step :
      (arc : Option (Angle × Angle)) {s s' : Controller Angle} {rs rs' : List (Request Angle)}
      → Step le s rs s' rs'
      → Safe arc s rs
      → Safe arc s' rs'
  unfolding switch_drained switch_timed_out commit_manual_steer commit_all_stop expire_manual_hold
  Safe-Step arc {s} {rs = rs} (steer a passed) h = record {
    same_arc = h.same_arc;
    moved = h.moved;
    targeted = h.targeted;
    aimed =
        All-append (IsAimed arc) rs (steer_waits a ∷ []) h.aimed
          (check_manual_steer-IsInside arc s a h.same_arc passed, tt);
  }
  Safe-Step arc {rs = rs} (stop r) h = record {
    same_arc = h.same_arc;
    moved = h.moved;
    targeted = h.targeted;
    aimed = All-append (IsAimed arc) rs (stop_waits r ∷ []) h.aimed (tt, tt);
  }
  Safe-Step arc (drained front back x ready) h =
      let (here, behind) = All-append_right (IsAimed arc) front (x ∷ back) h.aimed in
      record {
        same_arc = h.same_arc;
        moved = h.moved;
        targeted = h.targeted;
        aimed =
            All-append (IsAimed arc) front (switched x ∷ back)
              (All-append_left (IsAimed arc) front (x ∷ back) h.aimed)
              (switched-IsAimed arc x here, behind);
      }
  Safe-Step arc (timed_out front back x) h = record {
    same_arc = h.same_arc;
    moved = h.moved;
    targeted = h.targeted;
    aimed = without arc front back x h.aimed;
  }
  Safe-Step arc (steer_commits front back a expires_at_ns) h = record {
    same_arc = h.same_arc;
    moved = h.moved;
    targeted = (All-append_right (IsAimed arc) front (steer_switched a ∷ back) h.aimed).0;
    aimed = without arc front back (steer_switched a) h.aimed;
  }
  Safe-Step arc (stop_commits front back r) h = record {
    same_arc = h.same_arc;
    moved = h.moved;
    targeted = tt;
    aimed = without arc front back (stop_switched r) h.aimed;
  }
  Safe-Step arc {s} {rs = rs} clears h = Safe-Agrees arc s _ rs h (clear_fault-Agrees s)
  Safe-Step arc {s} {rs = rs} (sends payload) h =
      Safe-Agrees arc s _ rs h (send_comms_message-Agrees payload s)
  Safe-Step arc enters h = record {
    same_arc = h.same_arc;
    moved = h.moved;
    targeted = h.targeted;
    aimed = h.aimed;
  }
  Safe-Step arc leaves h = record {
    same_arc = h.same_arc;
    moved = h.moved;
    targeted = h.targeted;
    aimed = h.aimed;
  }
  Safe-Step arc {s} {rs = rs} sweeps h = Safe-Agrees arc s _ rs h (run_sweeping-Agrees s)
  Safe-Step arc {s} {rs = rs} acquires h = Safe-Agrees arc s _ rs h (run_acquired_peer-Agrees s)
  Safe-Step arc {s} (moves_to a at) h = record {
    same_arc = h.same_arc;
    moved =
        All-append (IsInside arc) s.moves (a ∷ []) h.moved
          (subst (IsTargeted arc) at h.targeted, tt);
    targeted = h.targeted;
    aimed = h.aimed;
  }
  Safe-Step arc drops h = record {
    same_arc = h.same_arc;
    moved = h.moved;
    targeted = tt;
    aimed = h.aimed;
  }
  Safe-Step arc expires h = record {
    same_arc = h.same_arc;
    moved = h.moved;
    targeted = h.targeted;
    aimed = h.aimed;
  }

  Safe-Run :
      (arc : Option (Angle × Angle)) {s : Controller Angle} {rs : List (Request Angle)}
      → Run le arc s rs
      → Safe arc s rs
  unfolding make_controller
  Safe-Run arc (starts sweep rendezvous comms) = record {
    same_arc = refl;
    moved = tt;
    targeted = tt;
    aimed = tt;
  }
  Safe-Run arc (goes_on run step) = Safe-Step arc step (Safe-Run arc run)

  -- Whatever requests come in and however their stretches of code mix with those of the running mode,
  -- every angle to which a manual hold moves the servo lies in the calibrated arc; without a calibrated
  -- arc there is no such move.
  pub moves-IsInside :
      (arc : Option (Angle × Angle)) (s : Controller Angle) (rs : List (Request Angle))
      → Run le arc s rs
      → All (IsInside arc) s.moves
  moves-IsInside arc s rs run = (Safe-Run arc run).moved
