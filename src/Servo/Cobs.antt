-- ===== src/Servo/Cobs.antt =====
-- packages/rfmesh-servo/src/rfmesh_servo/cobs.py: consistent overhead byte stuffing.
pub mod Encoding
pub mod RoundTrip
use rfmesh_workspace.Base.{
  ℕ, zero, suc, ◌+◌, List, [], ◌∷◌, ◌++◌, ltb, ◌==◌, if◌then◌else◌, ◌&&◌, length, get_elem?, set,
  slice, Option, none, some,
}
use rfmesh_workspace.Servo.Errors.{
  Result, ok, err, frame_error, out_of_fuel, empty_cobs, zero_code, overrun,
}

-- The variables of the encoder's loop: the output, the place of the open code byte, and its value.
pub record Encoder : Type 0 where
  pub out : List ℕ
  pub code_index : ℕ
  pub code : ℕ

-- `out[code_index] = code; code_index = len(out); out.append(0); code = 1`
abbrev pub close_block : Encoder → Encoder
close_block s = record {
  out = set s.out s.code_index s.code ++ (0 ∷ []);
  code_index = length (set s.out s.code_index s.code);
  code = 1;
}

-- One round of `for byte in data`.
unfoldable pub encode_byte : Encoder → ℕ → Encoder
encode_byte s byte =
    let s' = record s { out = s.out ++ (byte ∷ []); code = s.code + 1 } in
    if byte == 0 then close_block s else if s'.code == 0xff then close_block s' else s'

unfoldable pub encode_loop : Encoder → List ℕ → Encoder
encode_loop s [] = s
encode_loop s (byte ∷ rest) = encode_loop (encode_byte s byte) rest

unfoldable pub cobs_encode : List ℕ → List ℕ
unfolding encode_loop encode_byte
cobs_encode bytes =
    let s = encode_loop (record { out = 0 ∷ []; code_index = 0; code = 1 }) bytes in
    set s.out s.code_index s.code

-- `while i < n`, on fuel; a read past the end cannot happen under the test.
unfoldable pub decode_loop : ℕ → List ℕ → ℕ → List ℕ → Result (List ℕ)
decode_loop zero bytes i out = err out_of_fuel
decode_loop (suc fuel) bytes i out = elim (get_elem? bytes i) [
  | none ↦ ok out
  | some code ↦
      let block_end = i + code in
      let out' = out ++ slice bytes (i + 1) block_end in
      let rest =
        decode_loop fuel bytes block_end
          (if ltb code 0xff && ltb block_end (length bytes) then out' ++ (0 ∷ []) else out') in
      if code == 0
      then err (frame_error zero_code)
      else if ltb (length bytes) block_end
      then err (frame_error overrun)
      else rest
]

-- Each round moves on by a positive code, so the length and one more round are enough.
unfoldable pub cobs_decode : List ℕ → Result (List ℕ)
cobs_decode bytes =
    if length bytes == 0
    then err (frame_error empty_cobs)
    else decode_loop (suc (length bytes)) bytes 0 []
