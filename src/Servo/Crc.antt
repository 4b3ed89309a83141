-- ===== src/Servo/Crc.antt =====
-- packages/rfmesh-servo/src/rfmesh_servo/crc.py: CRC-16/CCITT-FALSE.
pub mod Detection
use rfmesh_workspace.Base.{ℕ, zero, suc, ◌*◌, bit_and, bit_xor, List, [], ◌∷◌, ◌==◌, if◌then◌else◌}

abbrev pub poly : ℕ
poly = 0x1021

abbrev pub init : ℕ
init = 0xffff

abbrev pub mask : ℕ
mask = 0xffff

-- One round of the inner loop; a shift by one is a product by two.
unfoldable pub crc_round : ℕ → ℕ
crc_round crc =
    if bit_and crc 0x8000 == 0
    then bit_and (crc * 2) mask
    else bit_and (bit_xor (crc * 2) poly) mask

-- `for _ in range(n)`
unfoldable pub crc_rounds : ℕ → ℕ → ℕ
unfolding crc_round
crc_rounds zero crc = crc
crc_rounds (suc n) crc = crc_rounds n (crc_round crc)

unfoldable pub crc_byte : ℕ → ℕ → ℕ
unfolding crc_rounds
crc_byte crc byte = crc_rounds 8 (bit_xor crc (byte * 256))

unfoldable pub crc_loop : ℕ → List ℕ → ℕ
unfolding crc_byte
crc_loop crc [] = crc
crc_loop crc (byte ∷ rest) = crc_loop (crc_byte crc byte) rest

unfoldable pub crc16_ccitt_false : List ℕ → ℕ
unfolding crc_loop
crc16_ccitt_false = crc_loop init
