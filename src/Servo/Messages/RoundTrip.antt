-- ===== src/Servo/Messages/RoundTrip.antt =====
-- The payloads of messages.py, packed and unpacked.
use rfmesh_workspace.Base.{
  ℕ, ◌/◌, ◌%◌, ◌≤◌, ◌<◌, ◌≡◌, refl, List, false, ◌&&◌, ◌||◌, ltb, Bool-cases, inl, inr, ◌⊎◌, arith,
  length,
}
use rfmesh_workspace.Base.Int.{leb_ℤ}
use rfmesh_workspace.Base.Bits.{bit_and_u8, bit_and_u32}
use rfmesh_workspace.Servo.Host.{Host, int16_min, int16_max}
use rfmesh_workspace.Servo.Pack.{
  i16_bits, i16_value, from_u16_le, i16_value-i16_bits, from_u16_le_lem, from_u32_le_lem,
}
use rfmesh_workspace.Servo.Errors.{ok, err, ◌>>=◌, ◌>>◌, refuse, value_error, struct_error}
use rfmesh_workspace.Servo.Messages.{
  MoveRequest, AxisPosition, Calibration, deci, pack_move, unpack_move, pack_position,
  unpack_position, pack_calibration, unpack_calibration, validate, calibration_bytes,
  calibration_bytes,
}

module _ (host : Host) where
  open host use {Deg, deci_of, of_deci}

  -- A conversion either gives a number of 16 bits, or it is refused.
  deci_cases :
      (a : Deg)
      → ((deci host a ≡ ok (deci_of a))
          × (i16_value (from_u16_le (i16_bits (deci_of a) % 256) (i16_bits (deci_of a) / 256))
              ≡ deci_of a))
        ⊎ (deci host a ≡ err value_error)
  unfolding deci
  deci_cases a =
      let d = deci_of a in
      elim (Bool-cases (leb_ℤ int16_min d && leb_ℤ d int16_max)) [
        | inl within ↦
            inl (rw within refl, rw (from_u16_le_lem (i16_bits d)) (i16_value-i16_bits d within))
        | inr beyond ↦ inr (rw beyond refl)
      ]

  -- Packing a MOVE and unpacking it gives the axis modulo 256 and the angle at tenths of a degree,
  -- or the error of the angle's conversion.
  pub unpack_move-pack_move :
      (m : MoveRequest host)
      → (pack_move host m >>= unpack_move host) ≡ (
          deci host m.angle_deg >>= λ d. ok (record { axis = m.axis % 256; angle_deg = of_deci d }))
  unfolding pack_move unpack_move
  unpack_move-pack_move m = elim (deci_cases m.angle_deg) [
    | inl (value, field) ↦ rw (value, field, bit_and_u8 m.axis) refl
    | inr refused ↦ rw refused refl
  ]

  -- Packing a POS_REPLY and unpacking it gives the axis modulo 256, the angle at tenths of a degree
  -- and the milliseconds modulo 2 ^ 32, or the error of the angle's conversion.
  pub unpack_position-pack_position :
      (m : AxisPosition host)
      → (pack_position host m >>= unpack_position host) ≡ (
          deci host m.commanded_angle_deg >>= λ d. ok (record {
            axis = m.axis % 256;
            commanded_angle_deg = of_deci d;
            ms_since_move = m.ms_since_move % 4294967296;
          }))
  unfolding pack_position unpack_position
  unpack_position-pack_position m = elim (deci_cases m.commanded_angle_deg) [
    | inl (value, field) ↦
        rw
          (
            value,
            field,
            bit_and_u8 m.axis,
            bit_and_u32 m.ms_since_move,
            from_u32_le_lem (m.ms_since_move % 4294967296),
          )
          refl
    | inr refused ↦ rw refused refl
  ]

  -- Packing a calibration and unpacking it gives the axis modulo 256, the pulses as they are and the
  -- angles at tenths of a degree; an angle out of range is refused first, then a pulse above 16 bits.
  pub unpack_calibration-pack_calibration :
      (m : Calibration host)
      → (pack_calibration host m >>= unpack_calibration host) ≡ (
          deci host m.angle_min_deg >>= λ low. deci host m.angle_max_deg >>= λ high.
          refuse (ltb 0xffff m.pulse_min_us || ltb 0xffff m.pulse_max_us) struct_error
          >> ok (record {
            axis = m.axis % 256;
            pulse_min_us = m.pulse_min_us;
            pulse_max_us = m.pulse_max_us;
            angle_min_deg = of_deci low;
            angle_max_deg = of_deci high;
          }))
  unfolding pack_calibration unpack_calibration
  unpack_calibration-pack_calibration m = elim (deci_cases m.angle_min_deg) [
    | inr refused ↦ rw refused refl
    | inl (low, low_field) ↦ elim (deci_cases m.angle_max_deg) [
      | inr refused ↦ rw (low, refused) refl
      | inl (high, high_field) ↦
          elim (Bool-cases (ltb 0xffff m.pulse_min_us || ltb 0xffff m.pulse_max_us)) [
            | inl wide ↦ rw (low, high, wide) refl
            | inr fits ↦
                rw
                  (
                    low,
                    high,
                    fits,
                    low_field,
                    high_field,
                    bit_and_u8 m.axis,
                    from_u16_le_lem m.pulse_min_us,
                    from_u16_le_lem m.pulse_max_us,
                  )
                  refl
          ]
    ]
  ]

  -- A calibration that passes `validate` is packed into twelve bytes.
  pub validate-pack_calibration :
      (m : Calibration host)
      → validate host m ≡ ok tt
      → (bytes : List ℕ) × (pack_calibration host m ≡ ok bytes)
        × (length bytes ≡ 12)
        × (400 ≤ m.pulse_min_us)
        × (m.pulse_min_us < m.pulse_max_us)
        × (m.pulse_max_us ≤ 2600)
  unfolding validate pack_calibration
  validate-pack_calibration m h = elim (deci_cases m.angle_min_deg) [
    | inr refused ↦ absurd (ground (arith, refused))
    | inl (low, low_field) ↦ elim (deci_cases m.angle_max_deg) [
      | inr refused ↦ absurd (ground (arith, low, refused))
      | inl (high, high_field) ↦
          let fits : (ltb 0xffff m.pulse_min_us || ltb 0xffff m.pulse_max_us) ≡ false =
            ground arith in
          (
            calibration_bytes host m (deci_of m.angle_min_deg) (deci_of m.angle_max_deg),
            rw (low, high, fits) refl,
            refl,
            ground arith,
            ground arith,
            ground arith,
          )
    ]
  ]
