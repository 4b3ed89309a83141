-- ===== src/Dsss/Bits.antt =====
-- The bit arrays of packages/rfmesh-dsss/src/rfmesh_dsss/framing.py: `np.unpackbits` and
-- `np.packbits`, the highest digit first.
use rfmesh_workspace.Base.{
  ℕ, ◌+◌, ◌*◌, ◌/◌, ◌%◌, List, [], ◌∷◌, ◌++◌, ◌==◌, if◌then◌else◌, not, length, ◌≡◌, refl, ◌<◌,
  arith, All,
}
use rfmesh_workspace.Servo.Crc.Detection.{IsByte}
use rfmesh_workspace.Dsss.Errors.{Result, ok, ◌>>◌, refuse, frame_decode_error, not_whole_bytes}

abbrev pub byte_bits : ℕ → List ℕ
byte_bits b =
    (b / 128 % 2)
    ∷ (b / 64 % 2)
    ∷ (b / 32 % 2)
    ∷ (b / 16 % 2)
    ∷ (b / 8 % 2)
    ∷ (b / 4 % 2)
    ∷ (b / 2 % 2)
    ∷ (b % 2)
    ∷ []

unfoldable pub bytes_to_bits : List ℕ → List ℕ
bytes_to_bits [] = []
bytes_to_bits (b ∷ bytes) = byte_bits b ++ bytes_to_bits bytes

-- `np.packbits` reads every digit but 0 as a 1; a rest of fewer than eight digits does not reach it.
abbrev pub digit : ℕ → ℕ
digit b = if b == 0 then 0 else 1

unfoldable pub pack_bits : List ℕ → List ℕ
pack_bits (a ∷ b ∷ c ∷ d ∷ e ∷ f ∷ g ∷ h ∷ bits) =
    (digit a * 128
      + digit b * 64
      + digit c * 32
      + digit d * 16
      + digit e * 8
      + digit f * 4
      + digit g * 2
      + digit h)
    ∷ pack_bits bits
pack_bits _ = []

unfoldable pub bits_to_bytes : List ℕ → Result (List ℕ)
bits_to_bytes bits = do
  refuse (not (length bits % 8 == 0)) (frame_decode_error not_whole_bytes)
  ok (pack_bits bits)

pub length-bytes_to_bits : (bytes : List ℕ) → length (bytes_to_bits bytes) ≡ 8 * length bytes
unfolding bytes_to_bits
length-bytes_to_bits [] = omega arith
length-bytes_to_bits (b ∷ bytes) = omega (arith, length-bytes_to_bits bytes)

digit_bit : (n : ℕ) → digit (n % 2) ≡ n % 2
digit_bit n = ground arith

byte_value :
    (b : ℕ)
    → b < 256
    → b / 128 % 2 * 128
        + b / 64 % 2 * 64
        + b / 32 % 2 * 32
        + b / 16 % 2 * 16
        + b / 8 % 2 * 8
        + b / 4 % 2 * 4
        + b / 2 % 2 * 2
        + b % 2
      ≡ b
byte_value b h = omega arith

pub pack_bits-bytes_to_bits :
    (bytes : List ℕ) → All IsByte bytes → pack_bits (bytes_to_bits bytes) ≡ bytes
unfolding pack_bits bytes_to_bits
pack_bits-bytes_to_bits [] h = refl
pack_bits-bytes_to_bits (b ∷ bytes) h =
    rw
      (
        digit_bit (b / 128),
        digit_bit (b / 64),
        digit_bit (b / 32),
        digit_bit (b / 16),
        digit_bit (b / 8),
        digit_bit (b / 4),
        digit_bit (b / 2),
        digit_bit b,
        byte_value b h.0,
        pack_bits-bytes_to_bits bytes h.1,
      )
      refl

-- Bytes written out as digits are read back.
pub bits_to_bytes-bytes_to_bits :
    (bytes : List ℕ) → All IsByte bytes → bits_to_bytes (bytes_to_bits bytes) ≡ ok bytes
unfolding bits_to_bytes
bits_to_bytes-bytes_to_bits bytes h =
    let whole : length (bytes_to_bits bytes) % 8 ≡ 0 = omega (arith, length-bytes_to_bits bytes) in
    rw (whole, pack_bits-bytes_to_bits bytes h) refl
