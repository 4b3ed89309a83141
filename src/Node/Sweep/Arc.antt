-- ===== src/Node/Sweep/Arc.antt =====
-- How far the angles of a sweep reach, and how many moves a loop over angles makes.
use native.Mathlib.Nat.{mod-add-div, mul-add}
use rfmesh_workspace.Base.{
  ℕ, zero, suc, ◌+◌, ◌-◌, ◌*◌, ◌/◌, ◌%◌, ◌≤◌, ◌<◌, ◌≡◌, sym, ◌∙◌, List, [], ◌∷◌, Bool, true, false,
  ltb, ◌==◌, Bool-cases, inl, inr, All, length, arith,
}
use rfmesh_workspace.Node.Sweep.{round_quotient, steps_from, arc_angles, move_each}

-- A quotient is rounded up by at most a half.
round_quotient-le : (n d : ℕ) → 0 < d → 2 * (d * round_quotient n d) ≤ 2 * n + d
unfolding round_quotient
round_quotient-le n d h =
    let whole = mod-add-div n d in
    let up : d * (n / d + 1) ≡ d * (n / d) + d = omega (arith, mul-add d (n / d) 1) in
    elim (Bool-cases (ltb (2 * (n % d)) d)) [
      | inl down ↦ rw down (omega (arith, whole))
      | inr at_half ↦ elim (Bool-cases (ltb d (2 * (n % d)))) [
        | inl over ↦ rw (at_half, over, up) (ground (arith, whole))
        | inr tie ↦ elim (Bool-cases (n / d % 2 == 0)) [
          | inl even ↦ rw (at_half, tie, even) (omega (arith, whole))
          | inr odd ↦ rw (at_half, tie, odd, up) (ground (arith, whole))
        ]
      ]
    ]

-- Between the low end and the last step.
steps_from-All :
    (lo step n : ℕ) → All (λ a. (lo ≤ a) × (a + step ≤ lo + step * n)) (steps_from lo step n)
unfolding steps_from
steps_from-All lo step zero = tt
steps_from-All lo step (suc n) =
    let more : step * suc n ≡ step * n + step = omega (arith, mul-add step n 1) in
    (
      (omega arith, omega (arith, more)),
      weaken (steps_from (lo + step) step n) more (steps_from-All (lo + step) step n),
    )
  where
    weaken :
        (as_left : List ℕ)
        → step * suc n ≡ step * n + step
        → All (λ a. (lo + step ≤ a) × (a + step ≤ lo + step + step * n)) as_left
        → All (λ a. (lo ≤ a) × (a + step ≤ lo + step * suc n)) as_left
    weaken [] e h = tt
    weaken (a ∷ as_left) e h =
        ((omega (arith, h.0.0), omega (arith, e, h.0.1)), weaken as_left e h.1)

-- The angles of an arc reach from its low end to at most half a step beyond its high end.
abbrev pub IsReach : ℕ → ℕ → ℕ → ℕ → Type 0
IsReach lo hi step a = (lo ≤ a) × (2 * a ≤ 2 * hi + step)

pub arc_angles-IsReach :
    (lo hi step : ℕ) → 0 < step → lo ≤ hi → All (IsReach lo hi step) (arc_angles lo hi step)
unfolding arc_angles
arc_angles-IsReach lo hi step positive order =
    let rounded = round_quotient-le (hi - lo) step positive in
    let n = round_quotient (hi - lo) step in
    let one_more : step * (n + 1) ≡ step * n + step = omega (arith, mul-add step n 1) in
    all_reach (steps_from lo step (n + 1)) rounded one_more (steps_from-All lo step (n + 1))
  where
    all_reach :
        (as_left : List ℕ)
        → 2 * (step * round_quotient (hi - lo) step) ≤ 2 * (hi - lo) + step
        → step * (round_quotient (hi - lo) step + 1) ≡ step * round_quotient (hi - lo) step + step
        → All (λ a. (lo ≤ a) × (a + step ≤ lo + step * (round_quotient (hi - lo) step + 1))) as_left
        → All (IsReach lo hi step) as_left
    all_reach [] r e h = tt
    all_reach (a ∷ as_left) r e h =
        ((h.0.0, omega (arith, r, e, h.0.1, order)), all_reach as_left r e h.1)

pub move_each-All :
    (P : ℕ → Type 0) (halted : ℕ → Bool) (k : ℕ) (angles : List ℕ)
    → All P angles
    → All P (move_each halted k angles).moves
unfolding move_each
move_each-All P halted k [] h = tt
move_each-All P halted k (a ∷ angles) h = elim (Bool-cases (halted k)) [
  | inl stop ↦ rw stop tt
  | inr go_on ↦ rw go_on (h.0, move_each-All P halted (k + 1) angles h.1)
]

-- From the `limit`-th checkpoint on, all read that the loop has to stop.
abbrev pub StopsAt : (ℕ → Bool) → ℕ → Type 0
StopsAt halted limit = (k : ℕ) → limit ≤ k → halted k ≡ true

-- A checkpoint that lets the loop go on lies before the limit.
pub passed : (halted : ℕ → Bool) (limit k : ℕ) → StopsAt halted limit → halted k ≡ false → k < limit
passed halted limit k stops h = elim (Bool-cases (ltb k limit)) [
  | inl before ↦ ground arith
  | inr behind ↦ let clash : true ≡ false = sym (stops k (ground arith)) ∙ h in absurd (cc)
]

pub move_each-length :
    (halted : ℕ → Bool) (limit k : ℕ) (angles : List ℕ)
    → StopsAt halted limit
    → (length (move_each halted k angles).moves ≤ limit - k)
      × (k + length (move_each halted k angles).moves ≤ (move_each halted k angles).next)
unfolding move_each
move_each-length halted limit k [] stops = (omega arith, omega arith)
move_each-length halted limit k (a ∷ angles) stops = elim (Bool-cases (halted k)) [
  | inl stop ↦ rw stop (omega arith, omega arith)
  | inr go_on ↦
      let (few, later) = move_each-length halted limit (k + 1) angles stops in
      let before : k < limit = passed halted limit k stops go_on in
      rw go_on (omega (arith, few, before), omega (arith, later))
]
