-- ===== src/Fusion/Window.antt =====
-- packages/rfmesh-fusion/src/rfmesh_fusion/fuser.py: the bearings near the median of their times. Times
-- are whole nanoseconds; floats of times count in half nanoseconds, where the median of whole numbers is
-- whole, and are rounded as the source rounds them.
pub mod Median
use rfmesh_workspace.Base.{
  ℕ, zero, suc, ◌+◌, ◌-◌, ◌*◌, ◌/◌, ◌%◌, List, [], ◌∷◌, Bool, true, false, leb, ltb, ◌==◌,
  if◌then◌else◌, length, Option, none, some, get_elem?, map,
}
use rfmesh_workspace.Base.Floats.{to_float}
use rfmesh_workspace.Fusion.Bearings.{BearingReport}

-- `sorted`
insert : ℕ → List ℕ → List ℕ
insert x [] = x ∷ []
insert x (y ∷ ys) = if leb x y then x ∷ (y ∷ ys) else y ∷ insert x ys

unfoldable pub sorted : List ℕ → List ℕ
unfolding insert
sorted [] = []
sorted (x ∷ xs) = insert x (sorted xs)

abbrev pub item : List ℕ → ℕ → ℕ
item xs i = elim (get_elem? xs i) [ none ↦ 0 | some x ↦ x ]

-- Twice `statistics.median` of at least one number: the middle one, or the two in the middle.
unfoldable pub twice_median : List ℕ → ℕ
twice_median xs =
    let n = length xs in
    let ordered = sorted xs in
    if n % 2 == 1 then 2 * item ordered (n / 2) else item ordered (n / 2 - 1) + item ordered (n / 2)

-- `abs(a - b)`
abbrev pub distance : ℕ → ℕ → ℕ
distance a b = if leb a b then b - a else a - b

module _ {P : Type 0} where
  unfoldable pub times : List (BearingReport P) → List ℕ
  times [] = []
  times (b ∷ bearings) = b.t_unix_ns ∷ times bearings

  -- `abs(float(b.t_unix_ns) - median_ns) <= half_window_ns`; the difference of the floats is rounded too.
  unfoldable pub keep_near : ℕ → ℕ → List (BearingReport P) → List (BearingReport P)
  keep_near median window [] = []
  keep_near median window (b ∷ bearings) =
      let rest = keep_near median window bearings in
      if leb (to_float (distance (to_float (2 * b.t_unix_ns)) median)) window
      then b ∷ rest
      else rest

  -- `_filter_to_time_window`, with the window in nanoseconds, rounded down; a distance of so many half
  -- nanoseconds is at most half of the window just when it is at most that.
  unfoldable pub filter_to_time_window : ℕ → List (BearingReport P) → List (BearingReport P)
  filter_to_time_window window bearings =
      keep_near (to_float (twice_median (times bearings))) window bearings

  abbrev pub total_time : List (BearingReport P) → ℕ
  total_time [] = 0
  total_time (b ∷ bearings) = b.t_unix_ns + total_time bearings

  -- `_midpoint_t_unix_ns` of at least one bearing.
  unfoldable pub midpoint_t_unix_ns : List (BearingReport P) → ℕ
  midpoint_t_unix_ns bearings = total_time bearings / length bearings
