-- ===== src/Node/Config/Comms/Sequence.antt =====
-- The code sequence of a constructed configuration has one chip per chip of a symbol.
use native.Mathlib.Nat.{pow-suc}
use rfmesh_workspace.Base.{
  ℕ, zero, suc, ◌+◌, ◌-◌, ◌/◌, ◌^◌, ◌≤◌, ◌<◌, ◌≡◌, refl, sym, ap, ◌∙◌, bit_and, List, map, Bool,
  true, false, not, ◌||◌, ◌==◌, ltb, leb, length, length-map, arith, ==→eq, ==_refl, opposite,
}
use rfmesh_workspace.Base.Bits.Powers.{bit_and-eq-mask}
use rfmesh_workspace.Base.Int.{ℤ}
use rfmesh_workspace.Base.Results.{ok, refuse-eq-ok}
use rfmesh_workspace.Dsss.Pn.{
  largest, smallest, repeats, validate_lfsr_params, lfsr_bits, lfsr_step, feedback_bit_positions,
  generate_m_sequence, chip,
}
use rfmesh_workspace.Base.Bits.Length.{bit_length, bit_length_from}
use rfmesh_workspace.Node.Config.Comms.{
  CommsConfig, n_register, spreading_consistency, make_comms_config, pn_sequence,
}

one_le_power : (n : ℕ) → 1 ≤ 2 ^ n
one_le_power zero = omega arith
one_le_power (suc n) = omega (arith, pow-suc 2 n, one_le_power n)

two_le_exponent : (n : ℕ) → 4 ≤ 2 ^ n → 2 ≤ n
two_le_exponent zero h = absurd (omega arith)
two_le_exponent (suc zero) h = absurd (omega arith)
two_le_exponent (suc (suc n)) h = omega arith

no_bits : (k : ℕ) → bit_length_from k 0 ≡ 0
unfolding bit_length_from
no_bits zero = refl
no_bits (suc k) = refl

bit_length_power : (n k x : ℕ) → x ≡ 2 ^ n → x ≤ k → bit_length_from k x ≡ n + 1
unfolding bit_length_from
bit_length_power n k zero e h = absurd (omega (arith, e, one_le_power n))
bit_length_power n zero (suc x) e h = absurd (omega arith)
bit_length_power zero (suc k) (suc zero) e h = omega (arith, no_bits k)
bit_length_power zero (suc k) (suc (suc x)) e h = absurd (omega arith)
bit_length_power (suc n) (suc k) (suc x) e h =
    omega (arith, bit_length_power n k (suc x / 2) (omega (arith, e, pow-suc 2 n)) (omega arith))

-- What the register of a constructed configuration is.
pub record IsConsistent (c : CommsConfig) : Type 0 where
  pub mask : c.spreading_factor + 1 ≡ 2 ^ largest c.lfsr_taps
  pub two_or_more : 2 ≤ largest c.lfsr_taps
  pub some_taps : 0 < length c.lfsr_taps
  pub above_zero : 1 ≤ smallest c.lfsr_taps
  pub seeded : 0 < c.lfsr_seed

n_register_power : (sf n : ℕ) → sf + 1 ≡ 2 ^ n → n_register sf ≡ n
unfolding bit_length
n_register_power sf n e = omega (arith, bit_length_power n (sf + 1) (sf + 1) e (omega arith))

either_false : (x y : Bool) → (x || not y) ≡ false → y ≡ true
either_false true y h = cc
either_false false true h = refl
either_false false false h = cc

spreading_consistency-IsConsistent :
    (c d : CommsConfig)
    → 3 ≤ c.spreading_factor
    → 0 < c.lfsr_seed
    → spreading_consistency c ≡ ok d
    → (d ≡ c) × IsConsistent c
unfolding spreading_consistency
spreading_consistency-IsConsistent c d wide seeded h =
    let clear =
      refuse-eq-ok
        (c.spreading_factor == 0 || not (bit_and c.spreading_factor (c.spreading_factor + 1) == 0))
        _ _ h in
    let tapped = refuse-eq-ok (length c.lfsr_taps == 0) _ _ clear.1 in
    let top =
      refuse-eq-ok (not (largest c.lfsr_taps == n_register c.spreading_factor)) _ _ tapped.1 in
    let above = refuse-eq-ok (ltb (smallest c.lfsr_taps) 1) _ _ top.1 in
    let power = bit_and-eq-mask c.spreading_factor (==→eq _ _ (either_false _ _ clear.0)) in
    let same : largest c.lfsr_taps ≡ power.0 =
      ==→eq _ _ (opposite _ top.0) ∙ n_register_power c.spreading_factor power.0 power.1 in
    (
      cc,
      record {
        mask = power.1 ∙ ap (λ (n : ℕ). 2 ^ n) (sym same);
        two_or_more = rw (same) (two_le_exponent power.0 (omega (arith, power.1)));
        some_taps = ground (arith, tapped.0);
        above_zero = ground (arith, above.0);
        seeded = seeded;
      },
    )

pub make_comms_config-IsConsistent :
    (c d : CommsConfig) → make_comms_config c ≡ ok d → (d ≡ c) × IsConsistent c
unfolding make_comms_config
make_comms_config-IsConsistent c d h =
    let carrier = refuse-eq-ok (c.carrier_freq == 0) _ _ h in
    let chips = refuse-eq-ok (c.chip_rate == 0) _ _ carrier.1 in
    let wide = refuse-eq-ok (ltb c.spreading_factor 3) _ _ chips.1 in
    let seeded = refuse-eq-ok (c.lfsr_seed == 0) _ _ wide.1 in
    let slot = refuse-eq-ok (c.tdd_slot == 0) _ _ seeded.1 in
    let payload = refuse-eq-ok (c.frame_payload_max_bytes == 0) _ _ slot.1 in
    spreading_consistency-IsConsistent c d (ground (arith, wide.0)) (ground (arith, seeded.0))
      payload.1

length-lfsr_bits :
    (r : ℕ) (positions : List ℕ) (count state : ℕ)
    → length (lfsr_bits r positions count state) ≡ count
unfolding lfsr_bits
length-lfsr_bits r positions zero state = refl
length-lfsr_bits r positions (suc count) state =
    ap suc (length-lfsr_bits r positions count (lfsr_step r positions state))

-- A constructed configuration whose taps do not repeat and whose seed is at most the spreading factor
-- has a code sequence, of as many chips as the spreading factor.
pub pn_sequence-length :
    (c d : CommsConfig)
    → make_comms_config c ≡ ok d
    → repeats c.lfsr_taps ≡ false
    → c.lfsr_seed ≤ c.spreading_factor
    → (chips : List ℤ) × (pn_sequence c ≡ ok chips) × (length chips ≡ c.spreading_factor)
unfolding pn_sequence generate_m_sequence validate_lfsr_params
pn_sequence-length c d h distinct fits =
    let v = (make_comms_config-IsConsistent c d h).1 in
    let wide : ltb (largest c.lfsr_taps) 2 ≡ false = ground (arith, v.two_or_more) in
    let tapped : (length c.lfsr_taps == 0) ≡ false = ground (arith, v.some_taps) in
    let top : (largest c.lfsr_taps == largest c.lfsr_taps) ≡ true = ==_refl _ in
    let above : ltb (smallest c.lfsr_taps) 1 ≡ false = ground (arith, v.above_zero) in
    let seeded : (c.lfsr_seed == 0) ≡ false = ground (arith, v.seeded) in
    let in_register : leb (2 ^ largest c.lfsr_taps) c.lfsr_seed ≡ false =
      ground (arith, v.mask, fits) in
    let bits =
      lfsr_bits (largest c.lfsr_taps) (feedback_bit_positions (largest c.lfsr_taps) c.lfsr_taps)
        (2 ^ largest c.lfsr_taps - 1) c.lfsr_seed in
    (
      map chip bits,
      rw (wide, tapped, top, above, distinct, seeded, in_register) refl,
      length-map chip bits
          ∙ length-lfsr_bits (largest c.lfsr_taps) _ _ c.lfsr_seed
          ∙ omega (arith, v.mask),
    )
