-- ===== src/Servo/Pack.antt =====
-- The formats of `struct.pack` and `struct.unpack` that messages.py uses, little-endian: unsigned
-- fields of one, two and four bytes and the two's complement of a signed field of two.
use rfmesh_workspace.Base.{
  ℕ, ◌+◌, ◌-◌, ◌*◌, ◌/◌, ◌%◌, ◌≡◌, List, [], ◌∷◌, true, ◌&&◌, ltb, if◌then◌else◌, arith,
}
use rfmesh_workspace.Base.Int.{ℤ, pos, negsuc, leb_ℤ}
use rfmesh_workspace.Servo.Host.{int16_min, int16_max}

abbrev pub u16_le : ℕ → List ℕ
u16_le n = (n % 256) ∷ (n / 256) ∷ []

abbrev pub u32_le : ℕ → List ℕ
u32_le n = (n % 256) ∷ (n / 256 % 256) ∷ (n / 65536 % 256) ∷ (n / 16777216) ∷ []

-- The bit pattern of a signed number of 16 bits, and the number that a pattern stands for.
abbrev pub i16_bits : ℤ → ℕ
i16_bits (pos n) = n
i16_bits (negsuc n) = 65535 - n

abbrev pub i16_value : ℕ → ℤ
i16_value n = if ltb n 32768 then pos n else negsuc (65535 - n)

abbrev pub from_u16_le : ℕ → ℕ → ℕ
from_u16_le a b = a + 256 * b

abbrev pub from_u32_le : ℕ → ℕ → ℕ → ℕ → ℕ
from_u32_le a b c d = a + 256 * b + 65536 * c + 16777216 * d

pub i16_value-i16_bits :
    (d : ℤ) → (leb_ℤ int16_min d && leb_ℤ d int16_max) ≡ true → i16_value (i16_bits d) ≡ d
i16_value-i16_bits d h = ground arith

pub from_u16_le_lem : (n : ℕ) → from_u16_le (n % 256) (n / 256) ≡ n
from_u16_le_lem n = omega arith

pub from_u32_le_lem :
    (n : ℕ) → from_u32_le (n % 256) (n / 256 % 256) (n / 65536 % 256) (n / 16777216) ≡ n
from_u32_le_lem n = omega arith
