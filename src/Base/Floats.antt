-- ===== src/Base/Floats.antt =====
-- The conversion of a whole number to a float of 53 binary digits, as `float` of Python does it.
use rfmesh_workspace.Base.Bits.Length.{bit_length, bit_length-le}
use Prim.Native.Nat.{ℕ, ◌+◌, ◌-◌, ◌*◌, ◌/◌, ◌%◌, ◌^◌, ◌≤◌, ◌<◌}
use native.Mathlib.Nat.{div-add-mod', pow-le-pow_right, one-le-pow, add-mul, one-mul}
use native.Mathlib.Omega.{arith}
use rfmesh_workspace.Base.Tests.{ltb, ◌==◌, if◌then◌else◌}

-- The whole number next to a quotient; of two as near, the even one.
abbrev pub nearest : ℕ → ℕ → ℕ
nearest n d =
    let q = n / d in
    let twice = 2 * (n % d) in
    if ltb twice d then q else if ltb d twice then q + 1 else if q % 2 == 0 then q else q + 1

-- The value of a digit beyond the 53 that a float keeps.
abbrev pub spacing : ℕ → ℕ
spacing n = 2 ^ (bit_length n - 53)

unfoldable pub to_float : ℕ → ℕ
to_float n = nearest n (spacing n) * spacing n

nearest_error :
    (n d : ℕ) → 0 < d → (2 * (nearest n d * d) ≤ 2 * n + d) × (2 * n ≤ 2 * (nearest n d * d) + d)
nearest_error n d positive = ground (arith, div-add-mod' n d, add-mul (n / d) 1 d, one-mul d)

-- A number below 2 ^ 63 is off by 512 at most.
pub to_float_error : (n : ℕ) → n < 2 ^ 63 → (to_float n ≤ n + 512) × (n ≤ to_float n + 512)
unfolding to_float
to_float_error n h =
    let positive : 0 < spacing n = one-le-pow (bit_length n - 53) 2 (omega arith) in
    let short : bit_length n - 53 ≤ 10 = omega (arith, bit_length-le n 63 h) in
    let small : spacing n ≤ 2 ^ 10 = pow-le-pow_right (omega arith) short in
    omega (arith, nearest_error n (spacing n) positive, small)
