-- ===== src/Base/Bits/Length.antt =====
-- `int.bit_length` of Python.
use Prim.Native.Nat.{ℕ, zero, suc, ◌+◌, ◌/◌, ◌^◌, ◌≤◌, ◌<◌}
use native.Mathlib.Nat.{pow-suc}
use native.Mathlib.Omega.{arith}

-- The fuel is what a number supplies for itself.
unfoldable pub bit_length_from : ℕ → ℕ → ℕ
bit_length_from zero n = 0
bit_length_from (suc k) zero = 0
bit_length_from (suc k) (suc n) = bit_length_from k (suc n / 2) + 1

unfoldable pub bit_length : ℕ → ℕ
bit_length n = bit_length_from n n

bit_length_from-le : (f n k : ℕ) → n < 2 ^ k → bit_length_from f n ≤ k
unfolding bit_length_from
bit_length_from-le zero n k h = omega arith
bit_length_from-le (suc f) zero k h = omega arith
bit_length_from-le (suc f) (suc n) zero h = absurd (omega arith)
bit_length_from-le (suc f) (suc n) (suc k) h =
    omega (arith, bit_length_from-le f (suc n / 2) k (omega (arith, pow-suc 2 k)))

pub bit_length-le : (n k : ℕ) → n < 2 ^ k → bit_length n ≤ k
unfolding bit_length
bit_length-le n k h = bit_length_from-le n n k h
