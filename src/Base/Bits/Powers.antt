-- ===== src/Base/Bits/Powers.antt =====
-- Numbers one below a power of two, by their digits.
use Prim.Native.Nat.{ℕ, zero, suc, ◌+◌, ◌/◌, ◌%◌, ◌^◌, ◌≤◌, bit_and}
use mathlib.Core.Path.{◌≡◌, refl, ap}
use mathlib.Core.Logic.{◌⊎◌, inl, inr}
use native.Mathlib.Nat.{pow-suc}
use native.Mathlib.Omega.{arith}
use rfmesh_workspace.Base.Bits.{bit_and_lowest}

bit_and_self_from : (k a : ℕ) → a ≤ k → bit_and a a ≡ a
bit_and_self_from k zero h = refl
bit_and_self_from zero (suc a) h = absurd (omega arith)
bit_and_self_from (suc k) (suc a) h =
    omega (arith, bit_and_lowest (suc a) (suc a), bit_and_self_from k (suc a / 2) (omega arith))

pub bit_and_self : (a : ℕ) → bit_and a a ≡ a
bit_and_self a = bit_and_self_from a a (omega arith)

parity : (a : ℕ) → (a % 2 ≡ 0) ⊎ (a % 2 ≡ 1)
parity a = ground arith

mask_from : (k a : ℕ) → a ≤ k → bit_and a (a + 1) ≡ 0 → (n : ℕ) × (a + 1 ≡ 2 ^ n)
mask_from k zero h clear = (0, refl)
mask_from zero (suc a) h clear = absurd (omega arith)
mask_from (suc k) (suc a) h clear =
    let half : ℕ = suc a / 2 in
    let lowest = bit_and_lowest (suc a) (suc a + 1) in
    elim (parity (suc a)) [
      | inl even ↦
          let same : (suc a + 1) / 2 ≡ half = omega (arith, even) in
          absurd
            (omega (arith, even, same, lowest, clear, ap (bit_and half) same, bit_and_self half))
      | inr odd ↦
          let next : (suc a + 1) / 2 ≡ half + 1 = omega (arith, odd) in
          let rest : bit_and half (half + 1) ≡ 0 =
            omega (arith, lowest, clear, ap (bit_and half) next) in
          let power = mask_from k half (omega arith) rest in
          (suc power.0, omega (arith, odd, power.1, pow-suc 2 power.0))
    ]

-- `n & (n + 1) == 0` tells the numbers one below a power of two.
pub bit_and-eq-mask : (a : ℕ) → bit_and a (a + 1) ≡ 0 → (n : ℕ) × (a + 1 ≡ 2 ^ n)
bit_and-eq-mask a = mask_from a a (omega arith)
