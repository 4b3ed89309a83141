-- ===== src/Node/Sweep/Moves.antt =====
-- Where one sweep moves the servo, and how soon it stops when it is told to.
use rfmesh_workspace.Base.{
  ℕ, ◌+◌, ◌-◌, ◌≤◌, ◌<◌, ◌≡◌, List, [], ◌∷◌, Option, none, some, Bool, true, ◌&&◌, leb, Bool-cases,
  inl, inr, All, All-append, length, length-append, arith,
}
use rfmesh_workspace.Node.Sweep.{
  L1SweepConfig, angles, servo_angle_of, move_each, Swept, park, after_sweep, first_angle,
  one_sweep,
}
use rfmesh_workspace.Node.Sweep.Arc.{
  IsReach, arc_angles-IsReach, move_each-All, StopsAt, passed, move_each-length,
}

module _ (half_circle boresight : ℕ) (c : L1SweepConfig) where
  -- Moves within reach, of a given number at most, and a held bearing is the one that was sent.
  abbrev pub IsSafe : ℕ → Swept → Type 0
  IsSafe most swept =
      All (IsReach c.min_deg c.max_deg c.step_deg) swept.moves
      × (length swept.moves ≤ most)
      × ((bearing : ℕ) → swept.held ≡ some bearing → swept.sent ≡ some bearing)

  nothing_held : {o : Option ℕ} (bearing : ℕ) → none ≡ some bearing → o ≡ some bearing
  nothing_held bearing h = absurd (cc)

  park-IsSafe :
      (most bearing : ℕ) (moves : List ℕ) (k : ℕ)
      → All (IsReach c.min_deg c.max_deg c.step_deg) moves
      → length moves ≤ most
      → IsSafe (most + 1) (park half_circle boresight c bearing moves k)
  unfolding park
  park-IsSafe most bearing moves k reach few =
      let angle = servo_angle_of half_circle boresight bearing in
      elim (Bool-cases (c.hold_on_peak && (leb c.min_deg angle && leb angle c.max_deg))) [
        | inl held ↦ rw held (
          All-append (IsReach c.min_deg c.max_deg c.step_deg) moves (angle ∷ []) reach
              (inside c.hold_on_peak angle held, tt),
          omega (arith, length-append moves (angle ∷ []), few),
          λ b h. h,
        )
        | inr free ↦ rw free (reach, omega (arith, few), λ b h. nothing_held b h)
      ]
    where
      inside :
          (hold : Bool) (angle : ℕ)
          → (hold && (leb c.min_deg angle && leb angle c.max_deg)) ≡ true
          → IsReach c.min_deg c.max_deg c.step_deg angle
      inside hold angle h = ground arith

  after_sweep-IsSafe :
      (most : ℕ) (estimate : Option ℕ) (moves : List ℕ) (k : ℕ)
      → All (IsReach c.min_deg c.max_deg c.step_deg) moves
      → length moves ≤ most
      → IsSafe (most + 1) (after_sweep half_circle boresight c estimate moves k)
  unfolding after_sweep
  after_sweep-IsSafe most none moves k reach few =
      (reach, omega (arith, few), λ b h. nothing_held b h)
  after_sweep-IsSafe most (some bearing) moves k reach few =
      park-IsSafe most bearing moves k reach few

  -- If the step is positive and the arc is not empty, one sweep moves the servo only within the arc or
  -- at most half a step beyond its upper end; if every checkpoint from the `limit`-th on reads that the
  -- loop has to stop, it moves the servo at most once more than there are checkpoints before the
  -- limit; and a bearing that it holds is the one that it sent.
  pub one_sweep-IsSafe :
      (estimate : Option ℕ) (halted : ℕ → Bool) (limit k : ℕ)
      → 0 < c.step_deg
      → c.min_deg ≤ c.max_deg
      → StopsAt halted limit
      → IsSafe (limit - k + 1) (one_sweep half_circle boresight c estimate halted k)
  unfolding one_sweep
  one_sweep-IsSafe estimate halted limit k positive order stops =
      let moved = move_each halted (k + 1) (angles c) in
      let reach =
        move_each-All (IsReach c.min_deg c.max_deg c.step_deg) halted (k + 1) (angles c)
          (arc_angles-IsReach c.min_deg c.max_deg c.step_deg positive order) in
      let few = (move_each-length halted limit (k + 1) (angles c) stops).0 in
      elim (Bool-cases (halted k)) [
        | inl stop ↦ rw stop (tt, omega arith, λ b h. nothing_held b h)
        | inr go_on ↦
            let before = passed halted limit k stops go_on in
            let count : length (first_angle c ∷ moved.moves) ≤ limit - k =
              omega (arith, before, few) in
            let start : IsReach c.min_deg c.max_deg c.step_deg c.min_deg = ground arith in
            elim (Bool-cases moved.complete) [
              | inl complete ↦
                  rw (go_on, complete)
                    (after_sweep-IsSafe (limit - k) estimate (first_angle c ∷ moved.moves)
                      moved.next (start, reach) count)
              | inr broken ↦
                  rw (go_on, broken) ((start, reach), omega (arith, count), λ b h. nothing_held b h)
            ]
      ]
