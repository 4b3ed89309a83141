-- ===== src/Node/Rendezvous/Cancel.antt =====
-- How many moves a node still makes while it acquires a peer and is told to stop.
use rfmesh_workspace.Base.{
  ℕ, ◌+◌, ◌-◌, ◌≤◌, ◌<◌, List, [], ◌∷◌, Option, none, some, Bool, ltb, Bool-cases, inl, inr, length,
  length-append, arith,
}
use rfmesh_workspace.Node.Sweep.{min_observations}
use rfmesh_workspace.Node.Sweep.Arc.{StopsAt, passed, move_each-length}
use rfmesh_workspace.Node.Rendezvous.{
  Role, starer, scanner, RendezvousConfig, expected_servo_angle, refine_angles, Rung, refine_once,
  Acquired, repoint, after_pass, ladder, point_and_refine, acquire_at, acquire,
}

module _ (c : RendezvousConfig) (halted : ℕ → Bool) (limit : ℕ) (stops : StopsAt halted limit) where
  refine_once-length :
      (target : ℕ) (rung : Rung) (k : ℕ)
      → (length (refine_once c target rung halted k).moves ≤ limit - k)
        × (k + length (refine_once c target rung halted k).moves
            ≤ (refine_once c target rung halted k).next)
  unfolding refine_once
  refine_once-length target rung k =
      elim (Bool-cases (ltb (length (refine_angles c target rung.half_arc)) min_observations)) [
        | inl few ↦ rw few (omega arith, omega arith)
        | inr enough ↦
            rw enough (move_each-length halted limit k (refine_angles c target rung.half_arc) stops)
      ]

  repoint-length : (bearing k : ℕ) → length (repoint c bearing halted k).1 ≤ limit - k
  unfolding repoint
  repoint-length bearing k = elim (Bool-cases (halted k)) [
    | inl stop ↦ rw stop (omega arith)
    | inr go_on ↦ rw go_on (omega (arith, passed halted limit k stops go_on))
  ]

  after_pass-length :
      (k : ℕ) (moves : List ℕ) (found : Option ℕ) (next : ℕ) (next_rung : Acquired)
      → length moves ≤ limit - k
      → k + length moves ≤ next
      → length next_rung.1 ≤ limit - next
      → length
          (after_pass c halted (record { moves = moves; found = found; next = next }) next_rung).1
        ≤ limit - k
  after_pass-length k moves none next next_rung few later rest =
      omega (arith, length-append moves next_rung.1, few, later, rest)
  after_pass-length k moves (some bearing) next next_rung few later rest = omega (
    arith,
    length-append moves (repoint c bearing halted next).1,
    repoint-length bearing next,
    few,
    later,
  )

  ladder-length :
      (target : ℕ) (rungs : List Rung) (k : ℕ)
      → length (ladder c target rungs halted k).1 ≤ limit - k
  unfolding ladder
  ladder-length target [] k = omega arith
  ladder-length target (rung ∷ rungs) k =
      let refined = refine_once c target rung halted (k + 1) in
      let (few, later) = refine_once-length target rung (k + 1) in
      elim (Bool-cases (halted k)) [
        | inl stop ↦ rw stop (omega arith)
        | inr go_on ↦ rw go_on (
            omega (
              arith,
              passed halted limit k stops go_on,
              after_pass-length (k + 1) refined.moves refined.found refined.next
                  (ladder c target rungs halted refined.next) few later
                  (ladder-length target rungs refined.next),
            ))
      ]

  point_and_refine-length :
      (r : Role) (rungs : List Rung) (target : ℕ)
      → 0 < limit
      → length (point_and_refine c r rungs halted target).1 ≤ limit
  unfolding point_and_refine
  point_and_refine-length starer rungs target positive = omega arith
  point_and_refine-length scanner rungs target positive =
      omega (arith, positive, ladder-length target rungs 1)

  -- If every checkpoint from the `limit`-th on reads that the node has to stop, `acquire` moves the
  -- servo at most `limit` times: each move stands behind a checkpoint of its own that let it go on.
  pub acquire-length :
      (r : Role) (bearing : ℕ) (rungs : List Rung)
      → length (acquire c r bearing rungs halted).1 ≤ limit
  unfolding acquire_at
  acquire-length r bearing rungs = at_target (expected_servo_angle c bearing)
    where
      at_target : (target : Option ℕ) → length (acquire_at c r rungs halted target).1 ≤ limit
      at_target none = omega arith
      at_target (some target) = elim (Bool-cases (halted 0)) [
        | inl stop ↦ rw stop (omega arith)
        | inr go_on ↦ rw go_on (
            point_and_refine-length r rungs target
              (omega (arith, passed halted limit 0 stops go_on)))
      ]
