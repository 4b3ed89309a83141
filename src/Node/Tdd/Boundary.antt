-- ===== src/Node/Tdd/Boundary.antt =====
-- The next boundary of a schedule, and the kind of slot up to it.
use native.Mathlib.Nat.{mod-add-mod, mod-eq_of_lt, mod-lt}
use rfmesh_workspace.Base.{
  ℕ, ◌+◌, ◌-◌, ◌%◌, ◌≤◌, ◌<◌, ◌≡◌, sym, refl, ◌∙◌, arith, ltb, Bool-cases, inl, inr, true, false,
  ap,
}
use rfmesh_workspace.Node.Tdd.{
  SlotSchedule, kind_at, current_slot, cycle_ns, boundary_behind, next_slot_boundary_ns,
}

boundary_ahead :
    (s : SlotSchedule) (position : ℕ)
    → position < cycle_ns s
    → (position < boundary_behind s position) × (boundary_behind s position ≤ cycle_ns s)
unfolding boundary_behind
boundary_ahead s position h = (ground arith, ground arith)

same_kind :
    (s : SlotSchedule) (position later : ℕ)
    → position < cycle_ns s
    → position ≤ later
    → later < boundary_behind s position
    → kind_at s later ≡ kind_at s position
unfolding boundary_behind kind_at
same_kind s position later h after before = ground arith

cycle_positive : (s : SlotSchedule) → 0 < s.slot_ns → 0 < cycle_ns s
cycle_positive s h = omega arith

-- In a schedule with slots of positive length the next boundary is later than now.
pub next_slot_boundary_ns-lt :
    (s : SlotSchedule) (t : ℕ) → 0 < s.slot_ns → t < next_slot_boundary_ns s t
unfolding next_slot_boundary_ns
next_slot_boundary_ns-lt s t positive =
    let position = (t - s.epoch_unix_ns) % cycle_ns s in
    let (ahead, inside) =
      boundary_ahead s position (mod-lt (t - s.epoch_unix_ns) (cycle_positive s positive)) in
    elim (Bool-cases (ltb t s.epoch_unix_ns)) [
      | inl early ↦ rw early (ground arith)
      | inr past ↦ rw past (omega arith)
    ]

-- From now until just before the next boundary the kind of slot stays the same.
pub current_slot_constant :
    (s : SlotSchedule) (t u : ℕ)
    → 0 < s.slot_ns
    → t ≤ u
    → u < next_slot_boundary_ns s t
    → current_slot s u ≡ current_slot s t
unfolding next_slot_boundary_ns current_slot
current_slot_constant s t u positive after before =
    let x = t - s.epoch_unix_ns in
    let position = x % cycle_ns s in
    let inside = mod-lt x (cycle_positive s positive) in
    elim (Bool-cases (ltb t s.epoch_unix_ns)) [
      | inl early ↦
          let limit : next_slot_boundary_ns s t ≡ s.epoch_unix_ns = rw early refl in
          let early' : ltb u s.epoch_unix_ns ≡ true = ground arith in rw (early, early') refl
      | inr past ↦
          let limit : next_slot_boundary_ns s t ≡ t + (boundary_behind s position - position) =
            rw past refl in
          let past' : ltb u s.epoch_unix_ns ≡ false = ground arith in
          let (ahead, bound) = boundary_ahead s position inside in
          let shifted : u - s.epoch_unix_ns ≡ x + (u - t) = ground arith in
          let later : (u - s.epoch_unix_ns) % cycle_ns s ≡ position + (u - t) =
            ap (λ (n : ℕ). n % cycle_ns s) shifted
            ∙ sym (mod-add-mod x (cycle_ns s) (u - t))
            ∙ mod-eq_of_lt (omega arith) in
          rw (past, past', later)
            (same_kind s position (position + (u - t)) inside (omega arith) (omega arith))
    ]
