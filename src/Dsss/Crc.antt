-- ===== src/Dsss/Crc.antt =====
-- `_crc16_ccitt_false` of packages/rfmesh-dsss/src/rfmesh_dsss/framing.py, a second copy of the
-- servo link's checksum.
use rfmesh_workspace.Base.{
  ℕ, zero, suc, ◌*◌, bit_and, bit_xor, List, [], ◌∷◌, ◌==◌, if◌then◌else◌, ◌≡◌, refl, ap, ◌∙◌,
}
use rfmesh_workspace.Servo.Crc.{crc_round, crc_rounds, crc_loop, crc16_ccitt_false}

abbrev pub crc_poly : ℕ
crc_poly = 0x1021

abbrev pub crc_init : ℕ
crc_init = 0xffff

-- One round of the inner loop.
unfoldable pub shift_crc : ℕ → ℕ
shift_crc crc =
    if bit_and crc 0x8000 == 0
    then bit_and (crc * 2) 0xffff
    else bit_and (bit_xor (crc * 2) crc_poly) 0xffff

unfoldable pub shift_crc_times : ℕ → ℕ → ℕ
shift_crc_times zero crc = crc
shift_crc_times (suc n) crc = shift_crc_times n (shift_crc crc)

unfoldable pub crc_from : ℕ → List ℕ → ℕ
crc_from crc [] = crc
crc_from crc (byte ∷ rest) = crc_from (shift_crc_times 8 (bit_xor crc (byte * 256))) rest

unfoldable pub crc16 : List ℕ → ℕ
crc16 bytes = crc_from crc_init bytes

rounds-eq : (n crc : ℕ) → shift_crc_times n crc ≡ crc_rounds n crc
unfolding shift_crc_times crc_rounds shift_crc crc_round
rounds-eq zero crc = refl
rounds-eq (suc n) crc = rounds-eq n (crc_round crc)

loop-eq : (crc : ℕ) (bytes : List ℕ) → crc_from crc bytes ≡ crc_loop crc bytes
unfolding crc_from crc_loop
loop-eq crc [] = refl
loop-eq crc (byte ∷ rest) =
    ap (λ c. crc_from c rest) (rounds-eq 8 (bit_xor crc (byte * 256)))
    ∙ loop-eq (crc_rounds 8 (bit_xor crc (byte * 256))) rest

-- On every message the two copies of the checksum agree.
pub crc16-crc16_ccitt_false : (bytes : List ℕ) → crc16 bytes ≡ crc16_ccitt_false bytes
unfolding crc16 crc16_ccitt_false
crc16-crc16_ccitt_false bytes = loop-eq crc_init bytes
