-- ===== src/Servo/Host.antt =====
-- What messages.py takes from Python: floats as degrees, with `round(x * 10.0)` and `x / 10.0`, and
-- the two text codecs of `str`. A parameter of the model, with the facts that the code relies on.
use rfmesh_workspace.Base.{ℕ, List, ◌≡◌, Option, some, true, ◌&&◌}
use rfmesh_workspace.Base.Int.{ℤ, pos, negsuc, leb_ℤ}

abbrev pub int16_min : ℤ
int16_min = negsuc 32767

abbrev pub int16_max : ℤ
int16_max = pos 32767

pub record Host : Type 1 where
  -- `float` degrees
  pub Deg : Type 0
  -- `round(angle_deg * 10.0)`
  pub deci_of : Deg → ℤ
  -- `deci / 10.0`
  pub of_deci : ℤ → Deg
  -- Rounding ten times a tenth of a number of 16 bits gives the number back.
  pub deci_of-of_deci :
      (d : ℤ) → (leb_ℤ int16_min d && leb_ℤ d int16_max) ≡ true → deci_of (of_deci d) ≡ d
  -- `str`, `str.encode` and `bytes.decode`; `none` is the codec's error.
  pub Str : Type 0
  pub encode_utf8 : Str → List ℕ
  pub decode_utf8 : List ℕ → Option Str
  pub encode_ascii : Str → Option (List ℕ)
  pub decode_ascii : List ℕ → Option Str
  pub decode_utf8-encode_utf8 : (s : Str) → decode_utf8 (encode_utf8 s) ≡ some s
  pub decode_ascii-encode_ascii :
      (s : Str) (bytes : List ℕ) → encode_ascii s ≡ some bytes → decode_ascii bytes ≡ some s
