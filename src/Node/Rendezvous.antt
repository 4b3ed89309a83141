-- ===== src/Node/Rendezvous.antt =====
-- packages/rfmesh-node/src/rfmesh_node/rendezvous.py: the roles of two peers, and the moves by which a node
-- points at its peer. Angles and checkpoints are those of the sweep. The bearing to the peer, and what
-- the estimator finds on each rung of the ladder, are given.
pub mod Moves
pub mod Cancel
use rfmesh_workspace.Base.{
  ℕ, ◌+◌, ◌-◌, List, [], ◌∷◌, ◌++◌, Option, none, some, Bool, true, false, not, ◌&&◌, ltb, leb,
  ◌==◌, length, if◌then◌else◌,
}
use rfmesh_workspace.Node.Sweep.{arc_angles, min_observations, servo_angle_of, Moved, move_each}

pub data Role : Type 0 where
  starer scanner : Role

-- Node ids are numbers in the order of the strings; none is DuplicateNodeIdError.
unfoldable pub role : ℕ → ℕ → Option Role
role self_id peer_id =
    if self_id == peer_id then none else if ltb self_id peer_id then some starer else some scanner

pub record RendezvousConfig : Type 0 where
  pub half_circle : ℕ
  pub boresight : ℕ
  pub refine_step : ℕ
  pub min_servo : ℕ
  pub max_servo : ℕ

-- Refused, not clamped, outside the arc.
unfoldable pub expected_servo_angle : RendezvousConfig → ℕ → Option ℕ
expected_servo_angle c bearing =
    let angle = servo_angle_of c.half_circle c.boresight bearing in
    if leb c.min_servo angle && leb angle c.max_servo then some angle else none

abbrev pub at_least : ℕ → ℕ → ℕ
at_least a b = if leb a b then b else a

abbrev pub at_most : ℕ → ℕ → ℕ
at_most a b = if leb a b then a else b

-- The angles of `_refine_once`. An angle below -180 degrees is cut off at it, which the servo's
-- lower end does in any case.
unfoldable pub refine_angles : RendezvousConfig → ℕ → ℕ → List ℕ
refine_angles c target half_arc =
    let lo = at_least (target - half_arc) c.min_servo in
    let hi = at_most (target + half_arc) c.max_servo in arc_angles lo hi c.refine_step

-- A rung of the ladder: its half arc, and the estimator's bearing after a complete pass.
pub record Rung : Type 0 where
  pub half_arc : ℕ
  pub estimate : Option ℕ

-- The moves of a pass, what it found, and the next checkpoint.
pub record Refined : Type 0 where
  pub moves : List ℕ
  pub found : Option ℕ
  pub next : ℕ

unfoldable pub refine_once : RendezvousConfig → ℕ → Rung → (ℕ → Bool) → ℕ → Refined
refine_once c target rung halted k =
    let arc = refine_angles c target rung.half_arc in
    let moved = move_each halted k arc in
    if ltb (length arc) min_observations
    then record { moves = []; found = none; next = k }
    else record {
      moves = moved.moves;
      found = if moved.complete then rung.estimate else none;
      next = moved.next;
    }

-- Whether there is a lock, and the moves.
abbrev pub Acquired : Type 0
Acquired = Bool × List ℕ

-- The peak is pointed at unless the mode was cancelled.
unfoldable pub repoint : RendezvousConfig → ℕ → (ℕ → Bool) → ℕ → Acquired
repoint c bearing halted k =
    if halted k then (false, []) else (true, servo_angle_of c.half_circle c.boresight bearing ∷ [])

-- What follows a pass: the peak, or the next rung, of which the result is given.
abbrev pub after_pass : RendezvousConfig → (ℕ → Bool) → Refined → Acquired → Acquired
after_pass c halted refined next_rung = elim refined.found [
  | none ↦ (next_rung.0, refined.moves ++ next_rung.1)
  | some bearing ↦
      let pointed = repoint c bearing halted refined.next in (pointed.0, refined.moves ++ pointed.1)
]

unfoldable pub ladder : RendezvousConfig → ℕ → List Rung → (ℕ → Bool) → ℕ → Acquired
ladder c target [] halted k = (false, [])
ladder c target (rung ∷ rungs) halted k =
    let refined = refine_once c target rung halted (k + 1) in
    let next_rung = ladder c target rungs halted refined.next in
    if halted k then (false, []) else after_pass c halted refined next_rung

unfoldable pub point_and_refine : RendezvousConfig → Role → List Rung → (ℕ → Bool) → ℕ → Acquired
point_and_refine c starer rungs halted target = (true, target ∷ [])
point_and_refine c scanner rungs halted target =
    let refined = ladder c target rungs halted 1 in (refined.0, target ∷ refined.1)

unfoldable pub acquire_at : RendezvousConfig → Role → List Rung → (ℕ → Bool) → Option ℕ → Acquired
acquire_at c r rungs halted none = (false, [])
acquire_at c r rungs halted (some target) =
    if halted 0 then (false, []) else point_and_refine c r rungs halted target

abbrev pub acquire : RendezvousConfig → Role → ℕ → List Rung → (ℕ → Bool) → Acquired
acquire c r bearing rungs halted = acquire_at c r rungs halted (expected_servo_angle c bearing)
