-- ===== src/Base/Bits.antt =====
-- Arithmetic laws of the bit operations at variables: the lowest digit of each, and what follows
-- from it by induction on the width.
pub mod Powers
pub mod Length
use Prim.Native.Nat.{
  ℕ, zero, suc, ◌+◌, ◌*◌, ◌/◌, ◌%◌, ◌^◌, ◌≤◌, ◌<◌, min, digits, bit_and, bit_xor, differ,
  bit_and-bitwise, bit_xor-bitwise,
}
use mathlib.Core.Path.{◌≡◌, refl, ap, ◌∙◌}
use native.Mathlib.Nat.{pow-suc}
use native.Mathlib.Omega.{arith}

-- Any count of digits that reaches the first number gives the same result.
module _ (z : ℕ → ℕ) (f : ℕ → ℕ → ℕ) where
  digits_count : (n : ℕ) (m a b : ℕ) → a ≤ n → a ≤ m → digits z f n a b ≡ digits z f m a b
  digits_count zero zero a b _ _ = refl
  digits_count zero (suc m) zero b _ _ = refl
  digits_count zero (suc m) (suc a) b over _ = absurd (omega arith)
  digits_count (suc n) zero zero b _ _ = refl
  digits_count (suc n) zero (suc a) b _ over = absurd (omega arith)
  digits_count (suc n) (suc m) zero b _ _ = refl
  digits_count (suc n) (suc m) (suc a) b hn hm =
      ap (λ (t : ℕ). t * 2 + f (suc a % 2) (b % 2))
        (digits_count n m (suc a / 2) (b / 2) (omega arith) (omega arith))

differ_digits : (x y : ℕ) → x < 2 → y < 2 → differ x y ≡ (x + y) % 2
differ_digits zero y _ hy = omega arith
differ_digits (suc zero) zero _ _ = refl
differ_digits (suc zero) (suc zero) _ _ = refl
differ_digits (suc zero) (suc (suc y)) _ over = absurd (omega arith)
differ_digits (suc (suc x)) y over _ = absurd (omega arith)

-- The lowest digit of an exclusive or is the parity of the sum.
pub bit_xor_lowest : (a b : ℕ) → bit_xor a b ≡ bit_xor (a / 2) (b / 2) * 2 + (a + b) % 2
bit_xor_lowest zero b = omega (arith, bit_xor-bitwise 0 b, bit_xor-bitwise 0 (b / 2))
bit_xor_lowest (suc a) b = omega (
  arith,
  bit_xor-bitwise (suc a) b,
  bit_xor-bitwise (suc a / 2) (b / 2),
  digits_count (λ b. b) differ a (suc a / 2) (suc a / 2) (b / 2) (omega arith) (omega arith),
  differ_digits (suc a % 2) (b % 2) (omega arith) (omega arith),
)

pub bit_and_lowest : (a b : ℕ) → bit_and a b ≡ bit_and (a / 2) (b / 2) * 2 + min (a % 2) (b % 2)
bit_and_lowest zero b = omega (arith, bit_and-bitwise 0 b, bit_and-bitwise 0 (b / 2))
bit_and_lowest (suc a) b = omega (
  arith,
  bit_and-bitwise (suc a) b,
  bit_and-bitwise (suc a / 2) (b / 2),
  digits_count (λ b. 0) min a (suc a / 2) (suc a / 2) (b / 2) (omega arith) (omega arith),
)

-- An exclusive or of numbers of `k` digits has at most `k` digits.
pub bit_xor-lt : (k a b : ℕ) → a < 2 ^ k → b < 2 ^ k → bit_xor a b < 2 ^ k
bit_xor-lt zero zero zero _ _ = omega arith
bit_xor-lt zero (suc a) b over _ = absurd (omega arith)
bit_xor-lt zero zero (suc b) _ over = absurd (omega arith)
bit_xor-lt (suc k) a b ha hb = omega (
  arith,
  pow-suc 2 k,
  bit_xor_lowest a b,
  bit_xor-lt k (a / 2) (b / 2) (omega (arith, pow-suc 2 k)) (omega (arith, pow-suc 2 k)),
)

-- On numbers of `k` digits the exclusive or with `c` loses nothing.
pub bit_xor_cancel : (k a b c : ℕ) → a < 2 ^ k → b < 2 ^ k → bit_xor a c ≡ bit_xor b c → a ≡ b
bit_xor_cancel zero a b c ha hb e = omega arith
bit_xor_cancel (suc k) a b c ha hb e =
    let halves : a / 2 ≡ b / 2 =
      bit_xor_cancel k (a / 2) (b / 2) (c / 2) (omega (arith, pow-suc 2 k))
        (omega (arith, pow-suc 2 k)) (omega (arith, bit_xor_lowest a c, bit_xor_lowest b c)) in
    omega (arith, bit_xor_lowest a c, bit_xor_lowest b c)

pub bit_xor_cancel_left : (k a b c : ℕ) → a < 2 ^ k → b < 2 ^ k → bit_xor c a ≡ bit_xor c b → a ≡ b
bit_xor_cancel_left zero a b c ha hb e = omega arith
bit_xor_cancel_left (suc k) a b c ha hb e =
    let halves : a / 2 ≡ b / 2 =
      bit_xor_cancel_left k (a / 2) (b / 2) (c / 2) (omega (arith, pow-suc 2 k))
        (omega (arith, pow-suc 2 k)) (omega (arith, bit_xor_lowest c a, bit_xor_lowest c b)) in
    omega (arith, bit_xor_lowest c a, bit_xor_lowest c b)

-- A digit above both numbers passes through.
pub bit_xor_above :
    (k x y : ℕ) → x < 2 ^ k → y < 2 ^ k → bit_xor (2 ^ k + x) y ≡ 2 ^ k + bit_xor x y
bit_xor_above zero zero zero _ _ = refl
bit_xor_above zero (suc x) y over _ = absurd (omega arith)
bit_xor_above zero zero (suc y) _ over = absurd (omega arith)
bit_xor_above (suc k) x y hx hy =
    let half : (2 ^ suc k + x) / 2 ≡ 2 ^ k + x / 2 = omega (arith, pow-suc 2 k) in
    omega (
      arith,
      pow-suc 2 k,
      bit_xor_lowest (2 ^ suc k + x) y,
      ap (λ (t : ℕ). bit_xor t (y / 2)) half,
      bit_xor_lowest x y,
      bit_xor_above k (x / 2) (y / 2) (omega (arith, pow-suc 2 k)) (omega (arith, pow-suc 2 k)),
    )

bit_and-zero : (k a : ℕ) → a ≤ k → bit_and a 0 ≡ 0
bit_and-zero k zero h = refl
bit_and-zero zero (suc a) h = absurd (omega arith)
bit_and-zero (suc k) (suc a) h =
    omega (arith, bit_and_lowest (suc a) 0, bit_and-zero k (suc a / 2) (omega arith))

-- `a & 0xFF`, `a & 0xFFFF` and `a & 0xFFFFFFFF` keep the low digits.
and_ones : ℕ → ℕ
and_ones zero = 0
and_ones (suc k) = and_ones k * 2 + 1

-- The digits of `a` below the `k`-th, and the `k`-th itself.
low : ℕ → ℕ → ℕ
low zero a = 0
low (suc k) a = low k (a / 2) * 2 + a % 2

digit : ℕ → ℕ → ℕ
digit zero a = a % 2
digit (suc k) a = digit k (a / 2)

bit_and-and_ones : (k a : ℕ) → bit_and a (and_ones k) ≡ low k a
unfolding and_ones low
bit_and-and_ones zero a = bit_and-zero a a (omega arith)
bit_and-and_ones (suc k) a =
    let half : (and_ones k * 2 + 1) / 2 ≡ and_ones k = omega arith in
    omega (
      arith,
      bit_and_lowest a (and_ones k * 2 + 1),
      ap (λ (t : ℕ). bit_and (a / 2) t) half,
      bit_and-and_ones k (a / 2),
    )

bit_and-power : (k a : ℕ) → bit_and a (2 ^ k) ≡ digit k a * 2 ^ k
unfolding digit
bit_and-power zero a = omega (arith, bit_and_lowest a 1, bit_and-zero (a / 2) (a / 2) (omega arith))
bit_and-power (suc k) a =
    let half : 2 ^ suc k / 2 ≡ 2 ^ k = omega (arith, pow-suc 2 k) in
    omega (
      arith,
      pow-suc 2 k,
      ap (λ (t : ℕ). digit k (a / 2) * t) (pow-suc 2 k),
      bit_and_lowest a (2 ^ suc k),
      ap (λ (t : ℕ). bit_and (a / 2) t) half,
      bit_and-power k (a / 2),
    )

pub bit_and_u16 : (a : ℕ) → bit_and a 0xffff ≡ a % 65536
unfolding and_ones low
bit_and_u16 a = bit_and-and_ones 16 a ∙ omega arith

pub bit_and_u8 : (a : ℕ) → bit_and a 0xff ≡ a % 256
unfolding and_ones low
bit_and_u8 a = bit_and-and_ones 8 a ∙ omega arith

pub bit_and_u32 : (a : ℕ) → bit_and a 0xffff_ffff ≡ a % 4294967296
unfolding and_ones low
bit_and_u32 a = bit_and-and_ones 32 a ∙ omega arith

-- The test `a & 0x8000` reads the top digit of 16.
pub bit_and_top : (a : ℕ) → a < 65536 → bit_and a 0x8000 ≡ a / 32768 * 32768
unfolding digit
bit_and_top a h = bit_and-power 15 a ∙ omega arith

pub bit_and_one : (a : ℕ) → bit_and a 1 ≡ a % 2
unfolding digit
bit_and_one a = bit_and-power 0 a ∙ omega arith

pub bit_xor-zero : (k a : ℕ) → a < 2 ^ k → bit_xor a 0 ≡ a
bit_xor-zero zero zero h = refl
bit_xor-zero zero (suc a) h = absurd (omega arith)
bit_xor-zero (suc k) a h =
    omega (arith, bit_xor_lowest a 0, bit_xor-zero k (a / 2) (omega (arith, pow-suc 2 k)))

pub bit_xor_assoc :
    (k a b c : ℕ)
    → a < 2 ^ k
    → b < 2 ^ k
    → c < 2 ^ k
    → bit_xor (bit_xor a b) c ≡ bit_xor a (bit_xor b c)
bit_xor_assoc zero a b c ha hb hc =
    let ea : a ≡ 0 = omega arith in
    let eb : b ≡ 0 = omega arith in let ec : c ≡ 0 = omega arith in rw (ea, eb, ec) refl
bit_xor_assoc (suc k) a b c ha hb hc =
    let left : bit_xor a b / 2 ≡ bit_xor (a / 2) (b / 2) = omega (arith, bit_xor_lowest a b) in
    let right : bit_xor b c / 2 ≡ bit_xor (b / 2) (c / 2) = omega (arith, bit_xor_lowest b c) in
    omega (
      arith,
      bit_xor_lowest a b,
      bit_xor_lowest b c,
      bit_xor_lowest (bit_xor a b) c,
      bit_xor_lowest a (bit_xor b c),
      ap (λ (t : ℕ). bit_xor t (c / 2)) left,
      ap (λ (t : ℕ). bit_xor (a / 2) t) right,
      bit_xor_assoc k (a / 2) (b / 2) (c / 2) (omega (arith, pow-suc 2 k))
          (omega (arith, pow-suc 2 k)) (omega (arith, pow-suc 2 k)),
    )

pub bit_xor_double : (a b : ℕ) → bit_xor (a * 2) (b * 2) ≡ bit_xor a b * 2
bit_xor_double a b =
    let ea : a * 2 / 2 ≡ a = omega arith in
    let eb : b * 2 / 2 ≡ b = omega arith in
    bit_xor_lowest (a * 2) (b * 2) ∙ rw (ea, eb) (omega arith)

-- Disjoint fields add up.
pub bit_xor_fields : (k q r : ℕ) → q < 2 ^ k → r < 2 ^ k → bit_xor (q * 2 ^ k) r ≡ q * 2 ^ k + r
bit_xor_fields k q r hq hr = go k r hr
  where
    go : (n : ℕ) (s : ℕ) → s < 2 ^ n → bit_xor (q * 2 ^ n) s ≡ q * 2 ^ n + s
    go zero s h =
        let e : q * 2 ^ 0 ≡ q = omega arith in
        let z : s ≡ 0 = omega arith in rw (e, z) (bit_xor-zero k q hq ∙ omega arith)
    go (suc n) s h =
        let e : q * 2 ^ suc n ≡ q * 2 ^ n * 2 =
          omega (arith, ap (λ (t : ℕ). q * t) (pow-suc 2 n)) in
        let half : q * 2 ^ suc n / 2 ≡ q * 2 ^ n = omega arith in
        omega (
          arith,
          bit_xor_lowest (q * 2 ^ suc n) s,
          ap (λ (t : ℕ). bit_xor t (s / 2)) half,
          go n (s / 2) (omega (arith, pow-suc 2 n)),
        )

pub bit_xor_comm : (k a b : ℕ) → a < 2 ^ k → b < 2 ^ k → bit_xor a b ≡ bit_xor b a
bit_xor_comm zero a b ha hb =
    let ea : a ≡ 0 = omega arith in let eb : b ≡ 0 = omega arith in rw (ea, eb) refl
bit_xor_comm (suc k) a b ha hb = omega (
  arith,
  bit_xor_lowest a b,
  bit_xor_lowest b a,
  bit_xor_comm k (a / 2) (b / 2) (omega (arith, pow-suc 2 k)) (omega (arith, pow-suc 2 k)),
)
