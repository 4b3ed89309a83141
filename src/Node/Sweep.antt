-- ===== src/Node/Sweep.antt =====
-- packages/rfmesh-node/src/rfmesh_node/l1_sweep.py: the angles of a sweep and the moves of its loop. An
-- angle is a whole number of some unit and is counted from -180 degrees; floats are not rounded. The
-- events to stop or to cancel are read at checkpoints: `halted k` says what the k-th one reads. The
-- estimator's bearing is given.
pub mod Arc
pub mod Moves
use rfmesh_workspace.Base.{
  ℕ, zero, suc, ◌+◌, ◌-◌, ◌*◌, ◌/◌, ◌%◌, List, [], ◌∷◌, ◌++◌, Option, none, some, Bool, true, false,
  not, ◌&&◌, ltb, leb, ◌==◌, length, if◌then◌else◌,
}

pub data SweepError : Type 0 where
  too_few_angles : SweepError

abbrev pub min_observations : ℕ
min_observations = 7

-- `round` of a quotient: to the nearest, and a half to the even number.
unfoldable pub round_quotient : ℕ → ℕ → ℕ
round_quotient n d =
    let q = n / d in
    let twice = 2 * (n % d) in
    if ltb twice d then q else if ltb d twice then q + 1 else if q % 2 == 0 then q else q + 1

-- `[lo + i * step for i in range(n)]`
unfoldable pub steps_from : ℕ → ℕ → ℕ → List ℕ
steps_from lo step zero = []
steps_from lo step (suc n) = lo ∷ steps_from (lo + step) step n

unfoldable pub arc_angles : ℕ → ℕ → ℕ → List ℕ
arc_angles lo hi step = steps_from lo step (round_quotient (hi - lo) step + 1)

pub record L1SweepConfig : Type 0 where
  pub min_deg : ℕ
  pub max_deg : ℕ
  pub step_deg : ℕ
  pub hold_on_peak : Bool

abbrev pub angles : L1SweepConfig → List ℕ
angles c = arc_angles c.min_deg c.max_deg c.step_deg

abbrev pub make_sweep : L1SweepConfig → Option SweepError
make_sweep c = if ltb (length (angles c)) min_observations then some too_few_angles else none

-- `_wrap180(bearing - boresight)`, for directions below a full circle.
unfoldable pub servo_angle_of : ℕ → ℕ → ℕ → ℕ
servo_angle_of half_circle boresight bearing =
    (bearing + (2 * half_circle - boresight) + half_circle) % (2 * half_circle)

-- The moves of a loop over angles with a checkpoint before each, whether it reached its end, and the
-- number of the next checkpoint.
pub record Moved : Type 0 where
  pub moves : List ℕ
  pub complete : Bool
  pub next : ℕ

unfoldable pub move_each : (ℕ → Bool) → ℕ → List ℕ → Moved
move_each halted k [] = record { moves = []; complete = true; next = k }
move_each halted k (angle ∷ angles) =
    let rest = move_each halted (k + 1) angles in
    if halted k
    then record { moves = []; complete = false; next = k + 1 }
    else record { moves = angle ∷ rest.moves; complete = rest.complete; next = rest.next }

-- What a sweep leaves: its moves, the bearing that it sends, and the bearing that it holds.
pub record Swept : Type 0 where
  pub moves : List ℕ
  pub sent : Option ℕ
  pub held : Option ℕ
  pub next : ℕ

abbrev pub halted_sweep : List ℕ → ℕ → Swept
halted_sweep moves k = record { moves = moves; sent = none; held = none; next = k }

-- Parking on the peak, if it lies in the arc.
unfoldable pub park : ℕ → ℕ → L1SweepConfig → ℕ → List ℕ → ℕ → Swept
park half_circle boresight c bearing moves k =
    let servo_angle = servo_angle_of half_circle boresight bearing in
    let inside = leb c.min_deg servo_angle && leb servo_angle c.max_deg in
    if c.hold_on_peak && inside
    then record {
      moves = moves ++ (servo_angle ∷ []);
      sent = some bearing;
      held = some bearing;
      next = k;
    }
    else record { moves = moves; sent = some bearing; held = none; next = k }

unfoldable pub after_sweep : ℕ → ℕ → L1SweepConfig → Option ℕ → List ℕ → ℕ → Swept
after_sweep half_circle boresight c none moves k = halted_sweep moves k
after_sweep half_circle boresight c (some bearing) moves k =
    park half_circle boresight c bearing moves k

-- The first angle of the arc, where each sweep starts.
abbrev pub first_angle : L1SweepConfig → ℕ
first_angle c = c.min_deg

unfoldable pub one_sweep : ℕ → ℕ → L1SweepConfig → Option ℕ → (ℕ → Bool) → ℕ → Swept
one_sweep half_circle boresight c estimate halted k =
    let moved = move_each halted (k + 1) (angles c) in
    if halted k
    then halted_sweep [] (k + 1)
    else if moved.complete
    then after_sweep half_circle boresight c estimate (first_angle c ∷ moved.moves) moved.next
    else halted_sweep (first_angle c ∷ moved.moves) moved.next
