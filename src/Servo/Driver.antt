-- ===== src/Servo/Driver.antt =====
-- packages/rfmesh-servo/src/rfmesh_servo/driver.py: `ServoDriver`. A method takes the driver and
-- returns its result or exception with the driver as it is left.
pub mod Requests
pub mod Connecting
use rfmesh_workspace.Base.{
  ℕ, ◌+◌, List, [], ◌∷◌, ◌++◌, Option, none, some, Bool, true, false, ◌==◌, if◌then◌else◌, not,
}
use rfmesh_workspace.Servo.Errors.{
  Result, ServoError, ok, err, refuse, frame_error, value_error, struct_error, protocol_error,
  incompatible_protocol, linenoise_detected, servo_timeout, servo_command, out_of_fuel,
}
use rfmesh_workspace.Servo.Host.{Host}
use rfmesh_workspace.Servo.Protocol.{encode_frame, protocol_version}
use rfmesh_workspace.Servo.Protocol.Cmd.{
  Cmd, cmd_byte, move, pos_query, pos_reply, stop, cal_set, cal_query, cal_reply, cal_persist, ping,
  pong, reset, ack, error,
}
use rfmesh_workspace.Servo.Messages.{
  AxisRequest, pack_axis, MoveRequest, pack_move, AxisPosition, unpack_position, Calibration,
  validate, pack_calibration, unpack_calibration,
}
use rfmesh_workspace.Servo.Messages.Replies.{
  Ack, unpack_ack, Pong, unpack_pong, ErrorReply, unpack_error,
}
use rfmesh_workspace.Servo.Link.{Link, Arrival, write, read_decoded_frame}

abbrev pub broadcast_axis : ℕ
broadcast_axis = 0xff

module _ (host : Host) where
  open host use {Deg, encode_utf8}

  pub record Driver : Type 0 where
    pub link : Link
    pub reply_timeout : ℕ
    pub connect_grace : ℕ
    pub pong_info : Option (Pong host)

  abbrev pub Drive : Type 0 → Type 0
  Drive A = Driver → Result A × Driver

  module _ {A : Type 0} where
    abbrev pub pure : A → Drive A
    pure a s = (ok a, s)

    abbrev pub lift : Result A → Drive A
    lift r s = (r, s)

  abbrev pub continue : {A B : Type 0} → (A → Drive B) → Result A × Driver → Result B × Driver
  continue f (ok a, s) = f a s
  continue f (err e, s) = (err e, s)

  infixl 5 ◌>>=◌ ◌>>◌
  abbrev pub ◌>>=◌ : {A B : Type 0} → Drive A → (A → Drive B) → Drive B
  ◌>>=◌ m f s = continue f (m s)

  abbrev pub ◌>>◌ : {A B : Type 0} → Drive A → Drive B → Drive B
  m >> k = m >>= λ _. k

  abbrev pub read_decoded : ℕ → Drive (ℕ × List ℕ)
  read_decoded timeout s =
      let got = read_decoded_frame timeout s.link in (got.0, record s { link = got.1 })

  -- `_send`
  unfoldable pub send : Cmd → List ℕ → Drive (Unit {0})
  send cmd payload = lift (encode_frame (cmd_byte cmd) payload) >>= λ wire s.
      (ok tt, record s { link = write wire s.link })

  -- `_await_reply`: an ERROR from the firmware is raised, and so is any other command.
  unfoldable pub checked_reply : Cmd → ℕ × List ℕ → Drive (ℕ × List ℕ)
  checked_reply expected (cmd, payload) =
      if cmd == cmd_byte error
      then (lift (unpack_error host payload) >>= λ e s.
          (err (servo_command e.original_cmd e.error_code (encode_utf8 e.message)), s))
      else lift (if cmd == cmd_byte expected then ok (cmd, payload) else err protocol_error)

  unfoldable pub await_reply : Cmd → Drive (ℕ × List ℕ)
  await_reply expected s = (read_decoded s.reply_timeout >>= checked_reply expected) s

  -- `_send_expect_ack`
  unfoldable pub send_expect_ack : Cmd → List ℕ → Drive (Unit {0})
  send_expect_ack cmd payload = do
    send cmd payload
    reply ← await_reply ack
    echoed ← lift (unpack_ack reply.1)
    lift (if echoed.cmd == cmd_byte cmd then ok tt else err protocol_error)

  -- `move`, `stop`, `set_calibration`, `persist_calibration` and `reset` end in an ACK.
  unfoldable pub move_axis : ℕ → Deg → Drive (Unit {0})
  move_axis axis angle_deg = do
    payload ← lift (pack_move host (record { axis = axis; angle_deg = angle_deg }))
    send_expect_ack move payload

  unfoldable pub stop_axis : ℕ → Drive (Unit {0})
  stop_axis axis = send_expect_ack stop (pack_axis (record { axis = axis }))

  unfoldable pub set_calibration : Calibration host → Drive (Unit {0})
  set_calibration calibration = do
    lift (validate host calibration)
    payload ← lift (pack_calibration host calibration)
    send_expect_ack cal_set payload

  unfoldable pub persist_calibration : Option ℕ → Drive (Unit {0})
  persist_calibration axis =
      let target : ℕ = elim axis [ none ↦ broadcast_axis | some a ↦ a ] in
      send_expect_ack cal_persist (pack_axis (record { axis = target }))

  unfoldable pub reset_firmware : Drive (Unit {0})
  reset_firmware = send_expect_ack reset []

  -- `position` and `get_calibration` end in a reply of their own.
  unfoldable pub position : ℕ → Drive (AxisPosition host)
  position axis = do
    send pos_query (pack_axis (record { axis = axis }))
    reply ← await_reply pos_reply
    lift (unpack_position host reply.1)

  unfoldable pub get_calibration : ℕ → Drive (Calibration host)
  get_calibration axis = do
    send cal_query (pack_axis (record { axis = axis }))
    reply ← await_reply cal_reply
    lift (unpack_calibration host reply.1)

  -- `ping`: the PONG is kept, whatever its version.
  unfoldable pub pong_of : ℕ × List ℕ → Result (Pong host)
  pong_of (cmd, payload) =
      if cmd == cmd_byte pong then unpack_pong host payload else err protocol_error

  unfoldable pub ping_firmware : Drive (Pong host)
  unfolding pong_of
  ping_firmware s =
      (send ping []
          >>= (λ _ s. read_decoded s.reply_timeout s)
          >>= (λ reply. lift (pong_of reply))
          >>= (λ p s. (ok p, record s { pong_info = some p })))
        s

  -- `_try_unsolicited_pong`: only a timeout is turned into no frame.
  unfoldable pub no_frame : Result (ℕ × List ℕ) × Driver → Result (Option (ℕ × List ℕ)) × Driver
  no_frame (ok frame, s) = (ok (some frame), s)
  no_frame (err servo_timeout, s) = (ok none, s)
  no_frame (err e, s) = (err e, s)

  unfoldable pub try_unsolicited_pong : Drive (Option (ℕ × List ℕ))
  unfolding no_frame
  try_unsolicited_pong s = no_frame (read_decoded s.connect_grace s)

  -- The PING that `connect` falls back to.
  unfoldable pub or_ping : Option (ℕ × List ℕ) → Drive (ℕ × List ℕ)
  or_ping (some frame) = pure frame
  or_ping none = send ping [] >>= λ _ s. read_decoded s.reply_timeout s

  -- `reset_input_buffer` of the transport drops what has arrived; `left` is what is still to arrive.
  unfoldable pub connect : List Arrival → Drive (Pong host)
  unfolding or_ping try_unsolicited_pong pong_of
  connect left s =
      (try_unsolicited_pong >>= or_ping >>= (λ reply. lift (pong_of reply)) >>= (λ p s.
          if p.proto_version == protocol_version
          then (ok p, record s { pong_info = some p })
          else (err incompatible_protocol, s)))
        (record s { link = record s.link { arrivals = left; rx_buffer = [] } })
