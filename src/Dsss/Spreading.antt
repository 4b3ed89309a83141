-- ===== src/Dsss/Spreading.antt =====
-- packages/rfmesh-dsss/src/rfmesh_dsss/modulation.py and spreading.py: BPSK symbols and their spreading over a
-- pseudo-noise sequence. A sample is its real part, which alone the demodulator reads: a whole number
-- of some unit, kept as a difference of two natural numbers. Sums are exact, and the division of a
-- correlation by the positive length is left out, since only the sign is read behind it.
pub mod Noise
use rfmesh_workspace.Base.{
  ℕ, zero, suc, ◌+◌, ◌/◌, ◌%◌, List, [], ◌∷◌, ◌++◌, Bool, true, false, not, ◌||◌, leb, ◌==◌, length,
  take, drop, if◌then◌else◌, map,
}
use rfmesh_workspace.Base.Results.{Try, ok, err, refuse, ◌>>◌, ◌>>=◌}

pub data SignalError : Type 0 where
  not_a_bit empty_pn partial_symbol : SignalError

-- `up - down`
pub record Sample : Type 0 where
  pub up : ℕ
  pub down : ℕ

-- A chip of the pseudo-noise sequence, 1 or -1.
pub data Chip : Type 0 where
  plus minus : Chip

abbrev pub symbol : ℕ → Sample
symbol zero = record { up = 1; down = 0 }
symbol (suc b) = record { up = 0; down = 1 }

abbrev pub all_bits : List ℕ → Bool
all_bits [] = true
all_bits (b ∷ bits) = let rest = all_bits bits in if b == 0 || b == 1 then rest else false

unfoldable pub bpsk_modulate : List ℕ → Try SignalError (List Sample)
bpsk_modulate bits = refuse (not (all_bits bits)) not_a_bit >> ok (map symbol bits)

-- A sample of at least 0 is a bit 0.
abbrev pub decide_bit : Sample → ℕ
decide_bit s = if leb s.down s.up then 0 else 1

unfoldable pub bpsk_demodulate : List Sample → List ℕ
bpsk_demodulate samples = map decide_bit samples

abbrev pub times : Sample → Chip → Sample
times s plus = s
times s minus = record { up = s.down; down = s.up }

-- A row of the outer product, and all rows one behind the other.
unfoldable pub spread_symbol : Sample → List Chip → List Sample
spread_symbol s pn = map (times s) pn

unfoldable pub spread_rows : List Sample → List Chip → List Sample
spread_rows [] pn = []
spread_rows (s ∷ symbols) pn = spread_symbol s pn ++ spread_rows symbols pn

unfoldable pub spread : List Sample → List Chip → Try SignalError (List Sample)
spread symbols pn = refuse (length pn == 0) empty_pn >> ok (spread_rows symbols pn)

abbrev pub plus_sample : Sample → Sample → Sample
plus_sample a b = record { up = a.up + b.up; down = a.down + b.down }

-- The product of a block with the sequence, as far as both go.
unfoldable pub correlate : List Sample → List Chip → Sample
correlate [] pn = record { up = 0; down = 0 }
correlate (s ∷ samples) [] = record { up = 0; down = 0 }
correlate (s ∷ samples) (chip ∷ pn) = plus_sample (times s chip) (correlate samples pn)

-- `reshape` into blocks of the sequence's length, each correlated.
unfoldable pub correlate_blocks : ℕ → List Sample → List Chip → List Sample
correlate_blocks zero chips pn = []
correlate_blocks (suc n) chips pn =
    correlate (take (length pn) chips) pn ∷ correlate_blocks n (drop (length pn) chips) pn

unfoldable pub despread : List Sample → List Chip → Try SignalError (List Sample)
despread chips pn =
    refuse (length pn == 0) empty_pn
    >> refuse (not (length chips % length pn == 0)) partial_symbol
    >> ok (correlate_blocks (length chips / length pn) chips pn)
