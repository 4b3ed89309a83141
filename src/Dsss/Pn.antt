-- ===== src/Dsss/Pn.antt =====
-- packages/rfmesh-dsss/src/rfmesh_dsss/pn_sequence.py: the Fibonacci LFSR. Register length, taps and
-- seed are natural numbers, so the test for a negative seed never holds.
use rfmesh_workspace.Base.{
  ℕ, zero, suc, ◌-◌, ◌*◌, ◌/◌, ◌^◌, bit_and, bit_xor, List, [], ◌∷◌, Bool, false, not, ◌||◌, ltb,
  leb, ◌==◌, if◌then◌else◌, length, map,
}
use Prim.Native.Nat.{bit_or, max, min}
use rfmesh_workspace.Base.Int.{ℤ, pos, negsuc}
use rfmesh_workspace.Dsss.Errors.{Result, ok, ◌>>◌, refuse, invalid_pn_sequence}

abbrev pub min_register_length : ℕ
min_register_length = 2

-- `max(taps)`, `min(taps)` and `len(set(taps)) != len(taps)`, read behind the test for no taps.
abbrev pub largest : List ℕ → ℕ
largest [] = 0
largest (t ∷ []) = t
largest (t ∷ u ∷ taps) = max t (largest (u ∷ taps))

abbrev pub smallest : List ℕ → ℕ
smallest [] = 0
smallest (t ∷ []) = t
smallest (t ∷ u ∷ taps) = min t (smallest (u ∷ taps))

abbrev pub member : ℕ → List ℕ → Bool
member t [] = false
member t (u ∷ taps) = (t == u) || member t taps

abbrev pub repeats : List ℕ → Bool
repeats [] = false
repeats (t ∷ taps) = member t taps || repeats taps

-- `_validate_lfsr_params`
unfoldable pub validate_lfsr_params : ℕ → List ℕ → ℕ → Result (Unit {0})
validate_lfsr_params register_length taps seed = do
  refuse (ltb register_length min_register_length) invalid_pn_sequence
  refuse (length taps == 0) invalid_pn_sequence
  refuse (not (largest taps == register_length)) invalid_pn_sequence
  refuse (ltb (smallest taps) 1) invalid_pn_sequence
  refuse (repeats taps) invalid_pn_sequence
  refuse (seed == 0) invalid_pn_sequence
  refuse (leb (2 ^ register_length) seed) invalid_pn_sequence

-- `tuple(sorted({*intermediate, 0}))`
abbrev pub insert : ℕ → List ℕ → List ℕ
insert t [] = t ∷ []
insert t (u ∷ set) =
    let rest = insert t set in if t == u then u ∷ set else if ltb t u then t ∷ u ∷ set else u ∷ rest

unfoldable pub feedback_bit_positions : ℕ → List ℕ → List ℕ
feedback_bit_positions register_length [] = 0 ∷ []
feedback_bit_positions register_length (t ∷ taps) =
    let rest = feedback_bit_positions register_length taps in
    if ltb t register_length then insert t rest else rest

-- The inner loop over the positions, and one step of the register.
unfoldable pub feedback : ℕ → ℕ → List ℕ → ℕ
feedback state acc [] = acc
feedback state acc (place ∷ positions) =
    feedback state (bit_xor acc (bit_and (state / 2 ^ place) 1)) positions

unfoldable pub lfsr_step : ℕ → List ℕ → ℕ → ℕ
unfolding feedback
lfsr_step register_length positions state =
    bit_or (state / 2) (feedback state 0 positions * 2 ^ (register_length - 1))

-- The outer loop: the lowest digit of each state.
unfoldable pub lfsr_bits : ℕ → List ℕ → ℕ → ℕ → List ℕ
lfsr_bits register_length positions zero state = []
lfsr_bits register_length positions (suc count) state =
    bit_and state 1
    ∷ lfsr_bits register_length positions count (lfsr_step register_length positions state)

abbrev pub chip : ℕ → ℤ
chip bit = if bit == 1 then pos 1 else negsuc 0

unfoldable pub generate_m_sequence : ℕ → List ℕ → ℕ → Result (List ℤ)
generate_m_sequence register_length taps seed = do
  validate_lfsr_params register_length taps seed
  let positions = feedback_bit_positions register_length taps
  ok (map chip (lfsr_bits register_length positions (2 ^ register_length - 1) seed))
