-- ===== src/Node/Channel/Backoff.antt =====
-- The delays between the attempts to connect, and how long an outage the channel outlasts.
use rfmesh_workspace.Base.{
  ℕ, zero, suc, ◌+◌, ◌*◌, ◌^◌, ◌≤◌, ◌<◌, ◌≡◌, refl, ap, ◌∙◌, List, [], ◌∷◌, true, false, leb, ltb,
  ltb→lt, Bool-cases, inl, inr, All, length, if◌then◌else◌, arith, tests,
}
use native.Mathlib.Nat.{pow-suc, mul-le-mul_left, mul-le-mul_right, mul-add}
use rfmesh_workspace.Node.Channel.{
  Round, running, raised, base_delay, max_exponent, delay_of, reconnect_delay, run_round, run,
}

-- An attempt that fails while nothing asks the channel to stop.
abbrev pub Fails : {Frame : Type 0} → Round Frame → Type 0
Fails round = (round.connects ≡ false) × (round.stops ≡ false) × (round.stops_asleep ≡ false)

module _ {Frame : Type 0} (unit : ℕ) where
  run_round-Fails :
      (round : Round Frame) (attempt : ℕ)
      → Fails round
      → run_round unit round attempt
        ≡ (if ltb attempt max_exponent then running (attempt + 1) else raised)
  unfolding run_round reconnect_delay
  run_round-Fails round attempt (off, going, awake) = elim (Bool-cases (ltb attempt max_exponent)) [
    | inl small ↦ rw (off, going, awake, small) refl
    | inr large ↦ rw (off, going, awake, large) refl
  ]

  run_raised : (rounds : List (Round Frame)) → run unit rounds raised ≡ raised
  unfolding run
  run_raised [] = refl
  run_raised (round ∷ rounds) = refl

  -- As long as no attempt to connect succeeds and nothing asks the channel to stop, the channel goes
  -- on up to 1,024 attempts in a row, and ends by an exception at the next one.
  pub run_outage :
      (rounds : List (Round Frame)) (attempt : ℕ)
      → attempt ≤ max_exponent
      → All Fails rounds
      → run unit rounds (running attempt) ≡ (
          if leb (attempt + length rounds) max_exponent
          then running (attempt + length rounds)
          else raised)
  unfolding run
  run_outage [] attempt h fails =
      let small : leb (attempt + 0) max_exponent ≡ true = ground arith in
      let same : attempt + 0 ≡ attempt = omega arith in rw (small, same) refl
  run_outage (round ∷ rounds) attempt h fails = elim (Bool-cases (ltb attempt max_exponent)) [
    | inl small ↦
        let next : attempt + suc (length rounds) ≡ attempt + 1 + length rounds = omega arith in
        ap (run unit rounds) {y = running (attempt + 1)}
          (run_round-Fails round attempt fails.0 ∙ rw small refl)
        ∙ run_outage rounds (attempt + 1) (omega (tests, ltb→lt attempt max_exponent small)) fails.1
        ∙ rw next refl
    | inr large ↦
        let over : leb (attempt + suc (length rounds)) max_exponent ≡ false = ground arith in
        ap (run unit rounds) {y = raised} (run_round-Fails round attempt fails.0 ∙ rw large refl)
        ∙ run_raised rounds
        ∙ rw over refl
  ]

base_delay-bounds : (attempt : ℕ) → (1 ≤ base_delay attempt) × (base_delay attempt ≤ 30)
unfolding base_delay
base_delay-bounds attempt =
    let positive = power_positive attempt in (ground (arith, positive), ground (arith, positive))
  where
    power_positive : (n : ℕ) → 1 ≤ 2 ^ n
    power_positive zero = omega arith
    power_positive (suc n) = omega (arith, pow-suc 2 n, power_positive n)

delay_of-between :
    (unit random base : ℕ)
    → 1 ≤ base
    → random < unit
    → (30 * unit * base ≤ delay_of unit random base)
      × (delay_of unit random base < 50 * unit * base)
unfolding delay_of
delay_of-between unit random base low h =
    let more : base * random + base ≤ base * unit = omega (arith, mul-le-mul_left base h) in
    let least : unit ≤ base * unit = omega (arith, mul-le-mul_right unit low) in
    let split : 10 * base * (3 * unit + 2 * random) ≡ 30 * (base * unit) + 20 * (base * random) =
      omega (arith, (mul-add (10 * base) (3 * unit) (2 * random))) in
    rw split (ground arith, ground arith)

-- The delay before a reconnect lies within a quarter of the base delay, which doubles from one
-- second and stops at 30 seconds, so that the lower bound of a tenth of a second never counts.
pub delay_of-bounds :
    (unit random attempt : ℕ)
    → random < unit
    → (30 * unit * base_delay attempt ≤ delay_of unit random (base_delay attempt))
      × (delay_of unit random (base_delay attempt) < 50 * unit * base_delay attempt)
      × (base_delay attempt ≤ 30)
delay_of-bounds unit random attempt h =
    let (low, high) = base_delay-bounds attempt in
    let (below, above) = delay_of-between unit random (base_delay attempt) low h in
    (below, above, high)
