-- ===== src/Servo/Link.antt =====
-- The reading side of packages/rfmesh-servo/src/rfmesh_servo/driver.py, `_read_wire_frame` and
-- `_read_decoded_frame`, over the `Transport` of transport.py. Time counts in ticks. The bytes that
-- arrive are given as a list: each element is what one call of `read` returns, with the ticks that
-- pass before it; behind the list the line is silent.
pub mod Reassembly
pub mod Resync
pub mod Ending
use rfmesh_workspace.Base.{
  ℕ, zero, suc, ◌+◌, ◌-◌, List, [], ◌∷◌, ◌++◌, Option, none, some, Bool, true, false, ◌||◌, leb,
  ltb, ◌==◌, if◌then◌else◌, length,
}
use rfmesh_workspace.Servo.Errors.{
  Result, ServoError, ok, err, frame_error, value_error, struct_error, protocol_error,
  incompatible_protocol, linenoise_detected, servo_timeout, servo_command, out_of_fuel,
}
use rfmesh_workspace.Servo.Protocol.{decode_frame}

pub record Arrival : Type 0 where
  pub after : ℕ
  pub chunk : List ℕ

-- The clock, what is still to arrive, the frames written, and the driver's buffer.
pub record Link : Type 0 where
  pub now : ℕ
  pub arrivals : List Arrival
  pub sent : List (List ℕ)
  pub rx_buffer : List ℕ

-- `Transport.read`: what arrives within the timeout, or nothing when the timeout has passed.
unfoldable pub read_from : List Arrival → ℕ → Link → List ℕ × Link
read_from [] timeout s = ([], record s { now = s.now + timeout })
read_from (a ∷ rest) timeout s =
    if leb a.after timeout
    then (a.chunk, record s { now = s.now + a.after; arrivals = rest })
    else (
      [],
      record s {
        now = s.now + timeout;
        arrivals = record { after = a.after - timeout; chunk = a.chunk } ∷ rest;
      },
    )

unfoldable pub read : ℕ → Link → List ℕ × Link
unfolding read_from
read timeout s = read_from s.arrivals timeout s

-- `Transport.write`
unfoldable pub write : List ℕ → Link → Link
write wire s = record s { sent = s.sent ++ (wire ∷ []) }

-- `_rx_buffer.find(b"\x00")` with the two slices taken there.
unfoldable pub split_terminator : List ℕ → Option (List ℕ × List ℕ)
split_terminator [] = none
split_terminator (b ∷ rest) =
    if b == 0
    then some ([], rest)
    else elim (split_terminator rest) [ none ↦ none | some (wire, more) ↦ some (b ∷ wire, more) ]

-- The loop of `_read_wire_frame`, on fuel.
unfoldable pub read_wire_loop : ℕ → ℕ → Link → Result (List ℕ) × Link
read_wire_loop zero deadline s = (err out_of_fuel, s)
read_wire_loop (suc fuel) deadline s = elim (split_terminator s.rx_buffer) [
  | some (wire, rest) ↦ (ok wire, record s { rx_buffer = rest })
  | none ↦
      let got = read (deadline - s.now) s in
      let more = read_wire_loop fuel deadline (record got.1 { rx_buffer = s.rx_buffer ++ got.0 }) in
      if leb deadline s.now then (err servo_timeout, s) else more
]

-- Every round but the last takes an arrival or reaches the deadline.
unfoldable pub read_wire_frame : ℕ → Link → Result (List ℕ) × Link
read_wire_frame timeout s = read_wire_loop (length s.arrivals + 2) (s.now + timeout) s

-- What a round of `_read_decoded_frame` does next: another round, with the mark that garbage was
-- seen, or the end with a result.
pub data Outcome : Type 0 where
  again : Bool → Outcome
  stop : Result (ℕ × List ℕ) → Outcome

-- The error of a timeout: bytes that formed no frame point at the firmware's shell.
abbrev pub timeout_error : Bool → Link → ServoError
timeout_error saw_garbage s =
    if saw_garbage || ltb 0 (length s.rx_buffer) then linenoise_detected else servo_timeout

-- `return decode_frame(wire)`, with the handler of `FrameError`.
unfoldable pub decoded : Result (ℕ × List ℕ) → Outcome
decoded (ok frame) = stop (ok frame)
decoded (err (frame_error fault)) = again true
decoded (err e) = stop (err e)

-- The round after `_read_wire_frame` returned or raised.
unfoldable pub classify : Bool → Result (List ℕ) → Link → Outcome
classify saw_garbage (ok []) s = again saw_garbage
classify saw_garbage (ok (b ∷ bytes)) s = decoded (decode_frame (b ∷ bytes))
classify saw_garbage (err servo_timeout) s = stop (err (timeout_error saw_garbage s))
classify saw_garbage (err e) s = stop (err e)

abbrev pub resume :
    (Bool → Link → Result (ℕ × List ℕ) × Link) → Outcome → Link → Result (ℕ × List ℕ) × Link
resume loop (again garbage) s = loop garbage s
resume loop (stop r) s = (r, s)

-- The loop of `_read_decoded_frame`, on fuel.
unfoldable pub read_decoded_loop : ℕ → ℕ → Bool → Link → Result (ℕ × List ℕ) × Link
read_decoded_loop zero deadline saw_garbage s = (err out_of_fuel, s)
read_decoded_loop (suc fuel) deadline saw_garbage s =
    let got = read_wire_frame (deadline - s.now) s in
    let round = resume (read_decoded_loop fuel deadline) (classify saw_garbage got.0 got.1) got.1 in
    if leb deadline s.now then (err (timeout_error saw_garbage s), s) else round

-- The bytes that are still to come.
abbrev pub stream : List Arrival → List ℕ
stream [] = []
stream (a ∷ rest) = a.chunk ++ stream rest

-- Every round but the last takes a terminator out of the buffer.
unfoldable pub read_decoded_frame : ℕ → Link → Result (ℕ × List ℕ) × Link
read_decoded_frame timeout s =
    read_decoded_loop (suc (length s.rx_buffer + length (stream s.arrivals))) (s.now + timeout)
      false s
