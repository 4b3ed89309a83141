-- ===== src/Node/Tdd/Skew.antt =====
-- Two peers with complementary roles and clocks that are apart by at most a guard interval.
use rfmesh_workspace.Base.{
  ℕ, ◌+◌, ◌-◌, ◌*◌, ◌/◌, ◌%◌, ◌≤◌, ◌<◌, ◌≡◌, ◌≢◌, ap, sym, refl, ◌∙◌, arith, ltb, Bool-cases, inl,
  inr, ◌⊎◌,
}
use native.Mathlib.Nat.{mul-le-mul_right, div-add-mod'}
use rfmesh_workspace.Node.Tdd.{
  SlotSchedule, tx_first, rx_first, tx, kind_at, current_slot, cycle_ns,
}

-- Where the two roles transmit.
tx_first_window :
    (slot gap epoch position : ℕ)
    → kind_at
        (record { slot_ns = slot; guard_ns = gap; epoch_unix_ns = epoch; role = tx_first })
        position
      ≡ tx
    → position < slot
unfolding kind_at
tx_first_window slot gap epoch position h = ground arith

rx_first_window :
    (slot gap epoch position : ℕ)
    → kind_at
        (record { slot_ns = slot; guard_ns = gap; epoch_unix_ns = epoch; role = rx_first })
        position
      ≡ tx
    → (slot + gap ≤ position) × (position < slot + gap + slot)
unfolding kind_at
rx_first_window slot gap epoch position h = (ground arith, ground arith)

order_cases : (k m : ℕ) → (k < m) ⊎ ((m < k) ⊎ (k ≡ m))
order_cases k m = ground arith

windows_apart :
    (slot gap k m p q : ℕ)
    → p < slot
    → slot + gap ≤ q
    → q < slot + gap + slot
    → k * (2 * (slot + gap)) + p ≤ m * (2 * (slot + gap)) + q + gap
    → m * (2 * (slot + gap)) + q ≤ k * (2 * (slot + gap)) + p + gap
    → ⊥
windows_apart slot gap k m p q hp hq hq' near near' = elim (order_cases k m) [
  | inl less ↦ omega (arith, mul-le-mul_right (2 * (slot + gap)) less)
  | inr (inl more) ↦ omega (arith, mul-le-mul_right (2 * (slot + gap)) more)
  | inr (inr same) ↦
      let products : k * (2 * (slot + gap)) ≡ m * (2 * (slot + gap)) =
        ap (λ x. x * (2 * (slot + gap))) same in
      omega arith
]

-- A time at which a node transmits is past the epoch, at a position of its window.
transmits :
    (s : SlotSchedule) (t : ℕ)
    → current_slot s t ≡ tx
    → (s.epoch_unix_ns ≤ t) × (kind_at s ((t - s.epoch_unix_ns) % cycle_ns s) ≡ tx)
unfolding current_slot
transmits s t h = elim (Bool-cases (ltb t s.epoch_unix_ns)) [
  | inl early ↦ absurd (ground arith)
  | inr past ↦
      let opened : current_slot s t ≡ kind_at s ((t - s.epoch_unix_ns) % cycle_ns s) =
        rw past refl in
      (ground arith, sym opened ∙ h)
]

-- If two peers share a schedule with complementary roles and their clocks are apart by at most the
-- guard interval, they never transmit at the same instant.
pub current_slot_exclusive :
    (s : SlotSchedule) (t u : ℕ)
    → t ≤ u + s.guard_ns
    → u ≤ t + s.guard_ns
    → current_slot (record s { role = tx_first }) t ≡ tx
    → current_slot (record s { role = rx_first }) u ≢ tx
current_slot_exclusive s t u near near' sends sends' =
    let (past, here) = transmits (record s { role = tx_first }) t sends in
    let (past', here') = transmits (record s { role = rx_first }) u sends' in
    let x = t - s.epoch_unix_ns in
    let y = u - s.epoch_unix_ns in
    let c = 2 * (s.slot_ns + s.guard_ns) in
    let whole_x : x / c * c + x % c ≡ x = div-add-mod' x c in
    let whole_y : y / c * c + y % c ≡ y = div-add-mod' y c in
    let (low, high) = rx_first_window s.slot_ns s.guard_ns s.epoch_unix_ns (y % c) here' in
    windows_apart s.slot_ns s.guard_ns (x / c) (y / c) (x % c) (y % c)
      (tx_first_window s.slot_ns s.guard_ns s.epoch_unix_ns (x % c) here) low high
      (rw (whole_x, whole_y) (omega arith)) (rw (whole_x, whole_y) (omega arith))
