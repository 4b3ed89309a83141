-- ===== src/Servo/Crc/Detection.antt =====
-- The checksum of crc.py: its range, and the changes of a message that it detects.
use rfmesh_workspace.Base.{
  ℕ, zero, suc, ◌+◌, ◌*◌, ◌-◌, ◌%◌, ◌^◌, ◌<◌, bit_xor, ◌≡◌, refl, ap, sym, ◌∙◌, List, [], ◌∷◌, ◌++◌,
  ◌⊎◌, inl, inr, arith, All,
}
use native.Mathlib.Nat.{pow-suc, one-le-pow}
use rfmesh_workspace.Base.Bits.{
  bit_xor-lt, bit_xor_cancel, bit_xor_cancel_left, bit_xor_above, bit_xor_assoc, bit_xor_comm,
  bit_xor_double, bit_xor_fields, bit_xor_lowest, bit_and_u16, bit_and_top,
}
use rfmesh_workspace.Servo.Crc.{
  poly, init, crc_round, crc_rounds, crc_byte, crc_loop, crc16_ccitt_false,
}

abbrev pub IsByte : ℕ → Type 0
IsByte b = b < 256

abbrev IsU16 : ℕ → Type 0
IsU16 c = c < 65536

-- The two branches of a round in plain arithmetic.
round_low : (c : ℕ) → c < 32768 → crc_round c ≡ c * 2
unfolding crc_round
round_low c h = ground (arith, bit_and_top c (omega arith), bit_and_u16 (c * 2))

round_high : (c : ℕ) → IsU16 c → 32768 < suc c → crc_round c ≡ bit_xor (c * 2 - 65536) poly
unfolding crc_round
round_high c h top =
    let doubled : c * 2 ≡ 65536 + (c * 2 - 65536) = omega arith in
    let above : bit_xor (c * 2) poly ≡ 65536 + bit_xor (c * 2 - 65536) poly =
      ap (λ (t : ℕ). bit_xor t poly) doubled
      ∙ bit_xor_above 16 (c * 2 - 65536) poly (omega arith) (omega arith) in
    ground (
      arith,
      bit_and_top c h,
      above,
      bit_xor-lt 16 (c * 2 - 65536) poly,
      bit_and_u16 (bit_xor (c * 2) poly),
    )

half_cases : (c : ℕ) → (c < 32768) ⊎ (32768 < suc c)
half_cases c = ground arith

round-IsU16 : (c : ℕ) → IsU16 c → IsU16 (crc_round c)
round-IsU16 c h = elim (half_cases c) [
  | inl low ↦ omega (arith, round_low c low)
  | inr top ↦
      omega
        (arith, round_high c h top, bit_xor-lt 16 (c * 2 - 65536) poly (omega arith) (omega arith))
]

-- The lowest digit of a round's result tells which branch was taken.
round_odd : (c : ℕ) → IsU16 c → 32768 < suc c → crc_round c % 2 ≡ 1
round_odd c h top = omega (arith, round_high c h top, bit_xor_lowest (c * 2 - 65536) poly)

round_injective : (a b : ℕ) → IsU16 a → IsU16 b → crc_round a ≡ crc_round b → a ≡ b
round_injective a b ha hb e = elim (half_cases a) [
  | inl la ↦ elim (half_cases b) [
    | inl lb ↦ omega (arith, round_low a la, round_low b lb)
    | inr tb ↦ absurd (omega (arith, round_low a la, round_odd b hb tb))
  ]
  | inr ta ↦ elim (half_cases b) [
    | inl lb ↦ absurd (omega (arith, round_low b lb, round_odd a ha ta))
    | inr tb ↦ omega (
      arith,
      bit_xor_cancel 16 (a * 2 - 65536) (b * 2 - 65536) poly (omega arith) (omega arith)
          (omega (arith, round_high a ha ta, round_high b hb tb)),
    )
  ]
]

rounds-IsU16 : (n c : ℕ) → IsU16 c → IsU16 (crc_rounds n c)
unfolding crc_rounds
rounds-IsU16 zero c h = h
rounds-IsU16 (suc n) c h = rounds-IsU16 n _ (round-IsU16 c h)

rounds_injective : (n a b : ℕ) → IsU16 a → IsU16 b → crc_rounds n a ≡ crc_rounds n b → a ≡ b
unfolding crc_rounds
rounds_injective zero a b ha hb e = e
rounds_injective (suc n) a b ha hb e =
    round_injective a b ha hb (rounds_injective n _ _ (round-IsU16 a ha) (round-IsU16 b hb) e)

-- A round is linear: a difference below the top digit is shifted and changes nothing else.
round_linear :
    (c d : ℕ) → IsU16 c → d < 32768 → crc_round (bit_xor c d) ≡ bit_xor (crc_round c) (d * 2)
round_linear c d hc hd = elim (half_cases c) [
  | inl low ↦
      round_low (bit_xor c d) (bit_xor-lt 15 c d low hd)
      ∙ sym (bit_xor_double c d)
      ∙ ap (λ (t : ℕ). bit_xor t (d * 2)) (sym (round_low c low))
  | inr top ↦
      let rest : bit_xor (c - 32768) d < 32768 = bit_xor-lt 15 (c - 32768) d (omega arith) hd in
      let split : bit_xor c d ≡ 32768 + bit_xor (c - 32768) d =
        ap (λ (t : ℕ). bit_xor t d) (omega arith)
        ∙ bit_xor_above 15 (c - 32768) d (omega arith) hd in
      let doubled : bit_xor c d * 2 - 65536 ≡ bit_xor (c * 2 - 65536) (d * 2) = omega (
        arith,
        bit_xor_double (c - 32768) d,
        ap (λ (t : ℕ). bit_xor t (d * 2))
            (let e : c * 2 - 65536 ≡ (c - 32768) * 2 = omega arith in e),
      ) in
      round_high (bit_xor c d) (omega arith) (omega arith)
      ∙ ap (λ (t : ℕ). bit_xor t poly) doubled
      ∙ swap_last (c * 2 - 65536) (d * 2) poly (omega arith) (omega arith) (omega arith)
      ∙ ap (λ (t : ℕ). bit_xor t (d * 2)) (sym (round_high c hc top))
]
  where
    swap_last :
        (x y z : ℕ)
        → IsU16 x
        → IsU16 y
        → IsU16 z
        → bit_xor (bit_xor x y) z ≡ bit_xor (bit_xor x z) y
    swap_last x y z hx hy hz =
        bit_xor_assoc 16 x y z hx hy hz
        ∙ ap (bit_xor x) (bit_xor_comm 16 y z hy hz)
        ∙ sym (bit_xor_assoc 16 x z y hx hz hy)

rounds_linear :
    (n c d : ℕ)
    → IsU16 c
    → d * 2 ^ n < 65536
    → crc_rounds n (bit_xor c d) ≡ bit_xor (crc_rounds n c) (d * 2 ^ n)
unfolding crc_rounds
rounds_linear zero c d hc hd = ap (bit_xor c) (omega arith)
rounds_linear (suc n) c d hc hd =
    let scaled : d * 2 ^ suc n ≡ d * 2 * 2 ^ n =
      omega (arith, ap (λ (t : ℕ). d * t) (pow-suc 2 n)) in
    let fits : d < 32768 = grind (arith, one-le-pow n 2) in
    ap (crc_rounds n) (round_linear c d hc fits)
    ∙ rounds_linear n (crc_round c) (d * 2) (round-IsU16 c hc) (omega arith)
    ∙ ap (bit_xor (crc_rounds n (crc_round c))) (sym scaled)

byte-IsU16 : (c b : ℕ) → IsU16 c → IsByte b → IsU16 (crc_byte c b)
unfolding crc_byte
byte-IsU16 c b hc hb = rounds-IsU16 8 _ (bit_xor-lt 16 c (b * 256) hc (omega arith))

byte_injective : (b c d : ℕ) → IsByte b → IsU16 c → IsU16 d → crc_byte c b ≡ crc_byte d b → c ≡ d
unfolding crc_byte
byte_injective b c d hb hc hd e = bit_xor_cancel 16 c d (b * 256) hc hd (
    rounds_injective 8 _ _ (bit_xor-lt 16 c (b * 256) hc (omega arith))
      (bit_xor-lt 16 d (b * 256) hd (omega arith)) e)

-- Two bytes enter as one number of 16 digits.
two_bytes :
    (c a b : ℕ)
    → IsU16 c
    → IsByte a
    → IsByte b
    → crc_byte (crc_byte c a) b ≡ crc_rounds 8 (crc_rounds 8 (bit_xor c (a * 256 + b)))
unfolding crc_byte
two_bytes c a b hc ha hb =
    ap (crc_rounds 8) (sym (rounds_linear 8 (bit_xor c (a * 256)) b mixed (omega arith)))
    ∙ ap (λ (t : ℕ). crc_rounds 8 (crc_rounds 8 t)) joined
  where
    mixed : IsU16 (bit_xor c (a * 256))
    mixed = bit_xor-lt 16 c (a * 256) hc (omega arith)

    joined : bit_xor (bit_xor c (a * 256)) b ≡ bit_xor c (a * 256 + b)
    joined =
        bit_xor_assoc 16 c (a * 256) b hc (omega arith) (omega arith)
        ∙ ap (bit_xor c) (bit_xor_fields 8 a b ha hb)

two_bytes_injective :
    (c a b a' b' : ℕ)
    → IsU16 c
    → IsByte a
    → IsByte b
    → IsByte a'
    → IsByte b'
    → crc_byte (crc_byte c a) b ≡ crc_byte (crc_byte c a') b'
    → (a ≡ a') × (b ≡ b')
two_bytes_injective c a b a' b' hc ha hb ha' hb' e = omega (arith, same)
  where
    word : (x y : ℕ) → IsByte x → IsByte y → IsU16 (bit_xor c (x * 256 + y))
    word x y hx hy = bit_xor-lt 16 c (x * 256 + y) hc (omega arith)

    same : a * 256 + b ≡ a' * 256 + b'
    same = bit_xor_cancel_left 16 (a * 256 + b) (a' * 256 + b') c (omega arith) (omega arith) (
        rounds_injective 8 _ _ (word a b ha hb) (word a' b' ha' hb') (
          rounds_injective 8 _ _ (rounds-IsU16 8 _ (word a b ha hb))
            (rounds-IsU16 8 _ (word a' b' ha' hb'))
            (sym (two_bytes c a b hc ha hb) ∙ e ∙ two_bytes c a' b' hc ha' hb')))

loop-IsU16 : (c : ℕ) (bytes : List ℕ) → IsU16 c → All IsByte bytes → IsU16 (crc_loop c bytes)
unfolding crc_loop
loop-IsU16 c [] hc h = hc
loop-IsU16 c (b ∷ bytes) hc h = loop-IsU16 (crc_byte c b) bytes (byte-IsU16 c b hc h.0) h.1

loop_injective :
    (bytes : List ℕ) (c d : ℕ)
    → IsU16 c
    → IsU16 d
    → All IsByte bytes
    → crc_loop c bytes ≡ crc_loop d bytes
    → c ≡ d
unfolding crc_loop
loop_injective [] c d hc hd h e = e
loop_injective (b ∷ bytes) c d hc hd h e = byte_injective b c d h.0 hc hd (
    loop_injective bytes (crc_byte c b) (crc_byte d b) (byte-IsU16 c b hc h.0)
      (byte-IsU16 d b hd h.0) h.1 e)

pub crc_loop-append : (c : ℕ) (xs ys : List ℕ) → crc_loop c (xs ++ ys) ≡ crc_loop (crc_loop c xs) ys
unfolding crc_loop
crc_loop-append c [] ys = refl
crc_loop-append c (x ∷ xs) ys = crc_loop-append (crc_byte c x) xs ys

-- The checksum of bytes is a number of 16 bits.
pub crc16_ccitt_false-lt : (bytes : List ℕ) → All IsByte bytes → crc16_ccitt_false bytes < 65536
unfolding crc16_ccitt_false
crc16_ccitt_false-lt bytes h = loop-IsU16 init bytes (omega arith) h

-- If two messages of bytes differ at most in two neighbouring bytes and have one checksum, those
-- bytes are the same in both: every burst of up to 16 bits within two neighbouring bytes is
-- detected, whatever stands before and behind it.
pub crc16_ccitt_false_detects_burst :
    (front back : List ℕ) (a b a' b' : ℕ)
    → All IsByte front
    → All IsByte back
    → IsByte a
    → IsByte b
    → IsByte a'
    → IsByte b'
    → crc16_ccitt_false (front ++ (a ∷ b ∷ back)) ≡ crc16_ccitt_false (front ++ (a' ∷ b' ∷ back))
    → (a ≡ a') × (b ≡ b')
unfolding crc16_ccitt_false crc_loop
crc16_ccitt_false_detects_burst front back a b a' b' hf hk ha hb ha' hb' e =
    two_bytes_injective c a b a' b' hc ha hb ha' hb' (
      loop_injective back _ _ (byte-IsU16 _ b (byte-IsU16 c a hc ha) hb)
        (byte-IsU16 _ b' (byte-IsU16 c a' hc ha') hb') hk
        (sym (crc_loop-append init front (a ∷ b ∷ back))
          ∙ e
          ∙ crc_loop-append init front (a' ∷ b' ∷ back)))
  where
    c : ℕ
    c = crc_loop init front

    hc : IsU16 c
    hc = loop-IsU16 init front (omega arith) hf
