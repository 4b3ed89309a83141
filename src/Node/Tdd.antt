-- ===== src/Node/Tdd.antt =====
-- packages/rfmesh-node/src/rfmesh_node/comms/tdd.py: the slots in which a node transmits and receives.
-- Durations are counted in whole nanoseconds instead of floating-point milliseconds, so the rounding
-- of a float is not modelled.
pub mod Skew
pub mod Boundary
use rfmesh_workspace.Base.{ℕ, ◌+◌, ◌-◌, ◌*◌, ◌%◌, Option, none, some, ltb, ◌==◌, if◌then◌else◌}

pub data SlotKind : Type 0 where
  tx rx guard : SlotKind

pub data Role : Type 0 where
  tx_first rx_first : Role

pub record SlotSchedule : Type 0 where
  pub slot_ns : ℕ
  pub guard_ns : ℕ
  pub epoch_unix_ns : ℕ
  pub role : Role

-- `__post_init__`: a natural number is never below zero.
unfoldable pub make_schedule : ℕ → ℕ → ℕ → Role → Option SlotSchedule
make_schedule slot_ns guard_ns epoch_unix_ns role =
    if slot_ns == 0
    then none
    else if epoch_unix_ns == 0
    then none
    else some (record {
      slot_ns = slot_ns;
      guard_ns = guard_ns;
      epoch_unix_ns = epoch_unix_ns;
      role = role;
    })

abbrev pub cycle_ns : SlotSchedule → ℕ
cycle_ns s = 2 * (s.slot_ns + s.guard_ns)

abbrev pub slot0_kind : Role → SlotKind
slot0_kind tx_first = tx
slot0_kind rx_first = rx

abbrev pub slot1_kind : Role → SlotKind
slot1_kind tx_first = rx
slot1_kind rx_first = tx

-- The kind at a position in the cycle.
unfoldable pub kind_at : SlotSchedule → ℕ → SlotKind
kind_at s position =
    if ltb position s.slot_ns
    then slot0_kind s.role
    else if ltb position (s.slot_ns + s.guard_ns)
    then guard
    else if ltb position (s.slot_ns + s.guard_ns + s.slot_ns)
    then slot1_kind s.role
    else guard

unfoldable pub current_slot : SlotSchedule → ℕ → SlotKind
current_slot s t =
    if ltb t s.epoch_unix_ns then guard else kind_at s ((t - s.epoch_unix_ns) % cycle_ns s)

-- `for b in boundaries`
unfoldable pub boundary_behind : SlotSchedule → ℕ → ℕ
boundary_behind s position =
    if ltb position s.slot_ns
    then s.slot_ns
    else if ltb position (s.slot_ns + s.guard_ns)
    then s.slot_ns + s.guard_ns
    else if ltb position (2 * s.slot_ns + s.guard_ns)
    then 2 * s.slot_ns + s.guard_ns
    else if ltb position (cycle_ns s)
    then cycle_ns s
    else position + cycle_ns s

unfoldable pub next_slot_boundary_ns : SlotSchedule → ℕ → ℕ
unfolding boundary_behind
next_slot_boundary_ns s t =
    if ltb t s.epoch_unix_ns
    then s.epoch_unix_ns
    else let position = (t - s.epoch_unix_ns) % cycle_ns s in
      t + (boundary_behind s position - position)
