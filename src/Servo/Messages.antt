-- ===== src/Servo/Messages.antt =====
-- packages/rfmesh-servo/src/rfmesh_servo/messages.py: the payloads as records, with `pack` and
-- `unpack`. The reserved bytes are written as 0 and ignored on receipt.
pub mod Replies
pub mod RoundTrip
use rfmesh_workspace.Servo.Host.{Host, int16_min, int16_max}
use rfmesh_workspace.Servo.Pack.{u16_le, u32_le, i16_bits, i16_value, from_u16_le, from_u32_le}
use rfmesh_workspace.Base.{
  ℕ, List, [], ◌∷◌, ◌++◌, Bool, true, false, not, ◌&&◌, ◌||◌, ltb, leb, ◌==◌, if◌then◌else◌,
  bit_and,
}
use rfmesh_workspace.Base.Int.{ℤ, pos, negsuc, leb_ℤ, eqb_ℤ}
use rfmesh_workspace.Servo.Errors.{
  Result, ok, err, ◌>>=◌, ◌>>◌, refuse, frame_error, value_error, struct_error, payload_length,
}

abbrev pub never_moved_sentinel : ℕ
never_moved_sentinel = 0xffff_ffff

pub record AxisRequest : Type 0 where
  pub axis : ℕ

unfoldable pub pack_axis : AxisRequest → List ℕ
pack_axis m = bit_and m.axis 0xff ∷ []

unfoldable pub unpack_axis : List ℕ → Result AxisRequest
unpack_axis (axis ∷ []) = ok (record { axis = axis })
unpack_axis _ = err (frame_error payload_length)

module _ (host : Host) where
  open host use {Deg, deci_of, of_deci}

  -- `_deci`
  unfoldable pub deci : Deg → Result ℤ
  deci angle_deg =
      let d = deci_of angle_deg in
      if leb_ℤ int16_min d && leb_ℤ d int16_max then ok d else err value_error

  pub record MoveRequest : Type 0 where
    pub axis : ℕ
    pub angle_deg : Deg

  unfoldable pub pack_move : MoveRequest → Result (List ℕ)
  pack_move m = do d ← deci m.angle_deg; ok (bit_and m.axis 0xff ∷ 0 ∷ u16_le (i16_bits d))

  unfoldable pub unpack_move : List ℕ → Result MoveRequest
  unpack_move (axis ∷ reserved ∷ lo ∷ hi ∷ []) =
      ok (record { axis = axis; angle_deg = of_deci (i16_value (from_u16_le lo hi)) })
  unpack_move _ = err (frame_error payload_length)

  pub record AxisPosition : Type 0 where
    pub axis : ℕ
    pub commanded_angle_deg : Deg
    pub ms_since_move : ℕ

  unfoldable pub is_settled_estimate : AxisPosition → Bool
  is_settled_estimate m = not (m.ms_since_move == never_moved_sentinel) && leb 250 m.ms_since_move

  unfoldable pub pack_position : AxisPosition → Result (List ℕ)
  pack_position m = do
    d ← deci m.commanded_angle_deg
    ok (
        bit_and m.axis 0xff ∷ 0 ∷ u16_le (i16_bits d)
        ++ u32_le (bit_and m.ms_since_move 0xffff_ffff))

  unfoldable pub unpack_position : List ℕ → Result AxisPosition
  unpack_position (axis ∷ reserved ∷ lo ∷ hi ∷ a ∷ b ∷ c ∷ d ∷ []) = ok (record {
    axis = axis;
    commanded_angle_deg = of_deci (i16_value (from_u16_le lo hi));
    ms_since_move = from_u32_le a b c d;
  })
  unpack_position _ = err (frame_error payload_length)

  pub record Calibration : Type 0 where
    pub axis : ℕ
    pub pulse_min_us : ℕ
    pub pulse_max_us : ℕ
    pub angle_min_deg : Deg
    pub angle_max_deg : Deg

  abbrev pub default : ℕ → Calibration
  default axis = record {
    axis = axis;
    pulse_min_us = 500;
    pulse_max_us = 2500;
    angle_min_deg = of_deci (negsuc 899);
    angle_max_deg = of_deci (pos 900);
  }

  angle_is : Deg → Deg → Result Bool
  unfolding deci
  angle_is a b = do x ← deci a; y ← deci b; ok (eqb_ℤ x y)

  -- `is_default`: a later comparison is made only if the earlier ones hold.
  unfoldable pub is_default : Calibration → Result Bool
  unfolding angle_is
  is_default m =
      if m.pulse_min_us == 500 && m.pulse_max_us == 2500
      then angle_is m.angle_min_deg (of_deci (negsuc 899))
        >>= (λ same. if same then angle_is m.angle_max_deg (of_deci (pos 900)) else ok false)
      else ok false

  abbrev outside : ℕ → Bool
  outside pulse = ltb pulse 400 || ltb 2600 pulse

  -- `validate`: the checks in the order of the source.
  unfoldable pub validate : Calibration → Result (Unit {0})
  validate m = do
    refuse (outside m.pulse_min_us) value_error
    refuse (outside m.pulse_max_us) value_error
    refuse (leb m.pulse_max_us m.pulse_min_us) value_error
    low ← deci m.angle_min_deg
    high ← deci m.angle_max_deg
    refuse (leb_ℤ high low) value_error

  -- The twelve bytes of the format `<BBHHhhH`.
  abbrev pub calibration_bytes : Calibration → ℤ → ℤ → List ℕ
  calibration_bytes m low high =
      bit_and m.axis 0xff ∷ 0 ∷ u16_le m.pulse_min_us
      ++ u16_le m.pulse_max_us
      ++ u16_le (i16_bits low)
      ++ u16_le (i16_bits high)
      ++ (0 ∷ 0 ∷ [])

  -- The format `H` refuses a number above 16 bits, after both angles are converted.
  unfoldable pub pack_calibration : Calibration → Result (List ℕ)
  pack_calibration m = do
    low ← deci m.angle_min_deg
    high ← deci m.angle_max_deg
    refuse (ltb 0xffff m.pulse_min_us || ltb 0xffff m.pulse_max_us) struct_error
    ok (calibration_bytes m low high)

  unfoldable pub unpack_calibration : List ℕ → Result Calibration
  unpack_calibration (axis ∷ r ∷ p ∷ p' ∷ q ∷ q' ∷ a ∷ a' ∷ b ∷ b' ∷ s ∷ s' ∷ []) = ok (record {
    axis = axis;
    pulse_min_us = from_u16_le p p';
    pulse_max_us = from_u16_le q q';
    angle_min_deg = of_deci (i16_value (from_u16_le a a'));
    angle_max_deg = of_deci (i16_value (from_u16_le b b'));
  })
  unpack_calibration _ = err (frame_error payload_length)
