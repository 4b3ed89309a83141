-- ===== src/Dsss/Spreading/Noise.antt =====
-- How much noise a spread symbol stands.
use native.Mathlib.Nat.{mul-add, mul-mod_right, mul-div_cancel_left}
use mathlib.Core.Path.{ap₂}
use rfmesh_workspace.Base.{
  ℕ, zero, suc, ◌+◌, ◌*◌, ◌/◌, ◌%◌, ◌<◌, ◌≡◌, refl, sym, ap, ◌∙◌, List, [], ◌∷◌, ◌++◌, true, false,
  ◌==◌, All, length, length-append, length-map, take, drop, take-length_append, drop-length_append,
  map, arith,
}
use rfmesh_workspace.Base.Results.{ok, ◌>>=◌}
use rfmesh_workspace.Dsss.Spreading.{
  Sample, Chip, plus, minus, symbol, all_bits, bpsk_modulate, decide_bit, bpsk_demodulate, times,
  spread_symbol, spread_rows, spread, plus_sample, correlate, correlate_blocks, despread,
}

-- What arrives: each chip with its noise.
abbrev pub add_noise : List Sample → List Sample → List Sample
add_noise [] noise = []
add_noise (s ∷ samples) [] = s ∷ samples
add_noise (s ∷ samples) (n ∷ noise) = plus_sample s n ∷ add_noise samples noise

-- The magnitudes of the noise on a symbol, added up.
abbrev pub magnitude : List Sample → ℕ
magnitude [] = 0
magnitude (n ∷ noise) = n.up + n.down + magnitude noise

abbrev pub join_blocks : List (List Sample) → List Sample
join_blocks [] = []
join_blocks (block ∷ blocks) = block ++ join_blocks blocks

-- A block of noise for a symbol, weaker than the sequence is long.
abbrev pub IsWeak : List Chip → List Sample → Type 0
IsWeak pn noise = (length noise ≡ length pn) × (magnitude noise < length pn)

-- The noise in a correlation.
abbrev pub IsShift : Sample → ℕ → ℕ → ℕ → Type 0
IsShift s up down most =
    (nu : ℕ) × (nd : ℕ) × (s.up ≡ up + nu) × (s.down ≡ down + nd) × (nu + nd ≡ most)

correlate_zero :
    (pn : List Chip) (noise : List Sample)
    → length noise ≡ length pn
    → IsShift
        (correlate (add_noise (spread_symbol (symbol 0) pn) noise) pn)
        (length pn)
        0
        (magnitude noise)
unfolding spread_symbol correlate
correlate_zero [] [] h = (0, 0, refl, refl, refl)
correlate_zero [] (n ∷ noise) h = absurd (omega arith)
correlate_zero (chip ∷ pn) [] h = absurd (omega arith)
correlate_zero (plus ∷ pn) (n ∷ noise) h =
    let (nu, nd, eu, ed, em) = correlate_zero pn noise (omega arith) in
    (n.up + nu, n.down + nd, omega arith, omega arith, omega arith)
correlate_zero (minus ∷ pn) (n ∷ noise) h =
    let (nu, nd, eu, ed, em) = correlate_zero pn noise (omega arith) in
    (n.down + nu, n.up + nd, omega arith, omega arith, omega arith)

correlate_one :
    (pn : List Chip) (noise : List Sample)
    → length noise ≡ length pn
    → IsShift
        (correlate (add_noise (spread_symbol (symbol 1) pn) noise) pn)
        0
        (length pn)
        (magnitude noise)
unfolding spread_symbol correlate
correlate_one [] [] h = (0, 0, refl, refl, refl)
correlate_one [] (n ∷ noise) h = absurd (omega arith)
correlate_one (chip ∷ pn) [] h = absurd (omega arith)
correlate_one (plus ∷ pn) (n ∷ noise) h =
    let (nu, nd, eu, ed, em) = correlate_one pn noise (omega arith) in
    (n.up + nu, n.down + nd, omega arith, omega arith, omega arith)
correlate_one (minus ∷ pn) (n ∷ noise) h =
    let (nu, nd, eu, ed, em) = correlate_one pn noise (omega arith) in
    (n.down + nu, n.up + nd, omega arith, omega arith, omega arith)

abbrev pub IsBit : ℕ → Type 0
IsBit b = b < 2

decide-correlate :
    (b : ℕ) (pn : List Chip) (noise : List Sample)
    → IsBit b
    → IsWeak pn noise
    → decide_bit (correlate (add_noise (spread_symbol (symbol b) pn) noise) pn) ≡ b
decide-correlate zero pn noise bit (same, weak) =
    let (nu, nd, eu, ed, em) = correlate_zero pn noise same in ground arith
decide-correlate (suc zero) pn noise bit (same, weak) =
    let (nu, nd, eu, ed, em) = correlate_one pn noise same in ground arith
decide-correlate (suc (suc b)) pn noise bit weak = absurd (omega arith)

length-add_noise : (samples noise : List Sample) → length (add_noise samples noise) ≡ length samples
length-add_noise [] noise = refl
length-add_noise (s ∷ samples) [] = refl
length-add_noise (s ∷ samples) (n ∷ noise) = ap suc (length-add_noise samples noise)

add_noise-append :
    (front back noise more : List Sample)
    → length noise ≡ length front
    → add_noise (front ++ back) (noise ++ more) ≡ add_noise front noise ++ add_noise back more
add_noise-append [] back [] more h = refl
add_noise-append [] back (n ∷ noise) more h = absurd (omega arith)
add_noise-append (s ∷ front) back [] more h = absurd (omega arith)
add_noise-append (s ∷ front) back (n ∷ noise) more h =
    ap (λ rest. plus_sample s n ∷ rest) (add_noise-append front back noise more (omega arith))

pub length-spread_rows :
    (pn : List Chip) (bits : List ℕ)
    → length (spread_rows (map symbol bits) pn) ≡ length pn * length bits
unfolding spread_rows spread_symbol
length-spread_rows pn [] = omega arith
length-spread_rows pn (b ∷ bits) = omega (
  arith,
  length-append (map (times (symbol b)) pn) (spread_rows (map symbol bits) pn),
  length-map (times (symbol b)) pn,
  length-spread_rows pn bits,
  mul-add (length pn) 1 (length bits),
)

length-spread_symbol : (s : Sample) (pn : List Chip) → length (spread_symbol s pn) ≡ length pn
unfolding spread_symbol
length-spread_symbol s pn = length-map (times s) pn

correlate_blocks-suc :
    (pn : List Chip) (n : ℕ) (front back : List Sample)
    → length front ≡ length pn
    → correlate_blocks (suc n) (front ++ back) pn ≡ correlate front pn ∷ correlate_blocks n back pn
unfolding correlate_blocks
correlate_blocks-suc pn n front back h =
    ap₂ (λ block rest. correlate block pn ∷ correlate_blocks n rest pn)
      (ap (λ k. take k (front ++ back)) (sym h) ∙ take-length_append front back)
      (ap (λ k. drop k (front ++ back)) (sym h) ∙ drop-length_append front back)

-- The blocks of what arrives are decided as the bits that were sent.
correlate_blocks-bits :
    (pn : List Chip) (bits : List ℕ) (noise : List (List Sample))
    → All IsBit bits
    → length noise ≡ length bits
    → All (IsWeak pn) noise
    → bpsk_demodulate (
        correlate_blocks
          (length bits)
          (add_noise (spread_rows (map symbol bits) pn) (join_blocks noise))
          pn)
      ≡ bits
unfolding bpsk_demodulate spread_rows correlate_blocks
correlate_blocks-bits pn [] noise valid same weak = refl
correlate_blocks-bits pn (b ∷ bits) [] valid same weak = absurd (omega arith)
correlate_blocks-bits pn (b ∷ bits) (block ∷ noise) valid same weak =
    let row = spread_symbol (symbol b) pn in
    let others = add_noise (spread_rows (map symbol bits) pn) (join_blocks noise) in
    let row_length : length row ≡ length pn = length-spread_symbol (symbol b) pn in
    let apart : add_noise (row ++ spread_rows (map symbol bits) pn) (block ++ join_blocks noise)
        ≡ add_noise row block ++ others =
      add_noise-append row (spread_rows (map symbol bits) pn) block (join_blocks noise)
        (weak.0.0 ∙ sym row_length) in
    let block_length : length (add_noise row block) ≡ length pn =
      length-add_noise row block ∙ row_length in
    rw apart (
      ap (map decide_bit)
        (correlate_blocks-suc pn (length bits) (add_noise row block) others block_length)
      ∙ ap₂ (λ decided rest. decided ∷ rest) (decide-correlate b pn block valid.0 weak.0)
          (correlate_blocks-bits pn bits noise valid.1 (omega arith) weak.1))

pub all_bits-All : (bits : List ℕ) → All IsBit bits → all_bits bits ≡ true
all_bits-All [] h = refl
all_bits-All (zero ∷ bits) h = all_bits-All bits h.1
all_bits-All (suc zero ∷ bits) h = all_bits-All bits h.1
all_bits-All (suc (suc b) ∷ bits) h = absurd (omega (arith, h.0))

-- If every bit of a message is 0 or 1 and the noise on each of its symbols is weaker, its magnitudes
-- added up, than the spreading sequence is long in units of a chip, then the message is modulated and
-- spread, what arrives is despread, and the demodulator gives the message back.
pub bpsk_demodulate-despread :
    (pn : List Chip) (bits : List ℕ) (noise : List (List Sample))
    → 0 < length pn
    → All IsBit bits
    → length noise ≡ length bits
    → All (IsWeak pn) noise
    → (chips : List Sample) × (samples : List Sample) × ((bpsk_modulate bits >>= λ symbols.
          spread symbols pn)
        ≡ ok chips)
      × (despread (add_noise chips (join_blocks noise)) pn ≡ ok samples)
      × (bpsk_demodulate samples ≡ bits)
unfolding bpsk_modulate spread despread
bpsk_demodulate-despread pn bits noise positive valid same weak =
    let chips = spread_rows (map symbol bits) pn in
    let long : (length pn == 0) ≡ false = ground arith in
    let size : length (add_noise chips (join_blocks noise)) ≡ length pn * length bits =
      length-add_noise chips (join_blocks noise) ∙ length-spread_rows pn bits in
    let whole : (length pn * length bits % length pn == 0) ≡ true =
      ground (arith, mul-mod_right (length pn) (length bits)) in
    let count : length pn * length bits / length pn ≡ length bits =
      mul-div_cancel_left (length bits) positive in
    (
      chips,
      correlate_blocks (length bits) (add_noise chips (join_blocks noise)) pn,
      rw (all_bits-All bits valid, long) refl,
      rw (long, size, whole, count) refl,
      correlate_blocks-bits pn bits noise valid same weak,
    )
