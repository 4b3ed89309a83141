-- ===== src/Dsss/Tests.antt =====
-- The spread-spectrum frame at concrete inputs.
use rfmesh_workspace.Base.{ℕ, ◌≡◌, List, [], ◌∷◌, true, ltb, All, all, all-All, arith}
use rfmesh_workspace.Servo.Crc.{crc16_ccitt_false}
use rfmesh_workspace.Servo.Crc.Detection.{IsByte}
use rfmesh_workspace.Dsss.Crc.{crc16, crc16-crc16_ccitt_false}

are_bytes : (bytes : List ℕ) → all (λ b. ltb b 256) bytes ≡ true → All IsByte bytes
are_bytes = all-All IsByte (λ b. ltb b 256) (λ b h. ground arith)

crc16-crc16_ccitt_false_example : crc16 (49 ∷ 50 ∷ []) ≡ crc16_ccitt_false (49 ∷ 50 ∷ [])
crc16-crc16_ccitt_false_example = crc16-crc16_ccitt_false (49 ∷ 50 ∷ [])
