-- ===== src/Servo/Tests/Line.antt =====
-- The driver's reader and its requests on a line at concrete inputs.
use rfmesh_workspace.Base.{ℕ, ◌≡◌, ◌≢◌, refl, List, [], ◌∷◌, ◌++◌, none, some, All, arith, inl, inr}
use rfmesh_workspace.Servo.Errors.{ok, err, frame_error, overrun, out_of_fuel}
use rfmesh_workspace.Servo.Crc.{crc_round, crc_rounds, crc_byte, crc_loop, crc16_ccitt_false}
use rfmesh_workspace.Servo.Cobs.{cobs_decode, decode_loop}
use rfmesh_workspace.Servo.Protocol.{decode_frame, decode_body, strip_terminator}
use rfmesh_workspace.Servo.Protocol.Cmd.{cmd_byte, move, ack, error}
use rfmesh_workspace.Servo.Link.{
  read_decoded_loop, read_wire_loop, read, read_from, split_terminator, classify, decoded, Arrival,
  Link, read_wire_frame, read_decoded_frame, stream,
}
use rfmesh_workspace.Servo.Link.Reassembly.{Took}
use rfmesh_workspace.Servo.Link.Resync.{IsNoise, read_decoded_frame_resync}
use rfmesh_workspace.Servo.Link.Ending.{read_decoded_frame-ne-out_of_fuel}
use rfmesh_workspace.Servo.Messages.Replies.{Pong, unpack_pong}
use rfmesh_workspace.Servo.Driver.{
  connect, try_unsolicited_pong, no_frame, or_ping, pong_of, Driver, send_expect_ack,
}
use rfmesh_workspace.Servo.Driver.Requests.{Answers, send_expect_ack_acknowledged}
use rfmesh_workspace.Servo.Tests.{plain_host, nonzero, move_wire, move_fits}

-- An empty frame and a byte that is no frame, then the ACK of a MOVE in two pieces, then one byte.
abbrev ack_wire : List ℕ
ack_wire = 6 ∷ 240 ∷ 1 ∷ 1 ∷ 222 ∷ 12 ∷ []

abbrev line : List Arrival
line =
    record { after = 1; chunk = 5 ∷ 0 ∷ 6 ∷ 240 ∷ 1 ∷ [] }
    ∷ record { after = 2; chunk = 1 ∷ 222 ∷ 12 ∷ 0 ∷ 7 ∷ [] }
    ∷ []

abbrev link : Link
link = record { now = 10; arrivals = line; sent = []; rx_buffer = 0 ∷ [] }

abbrev noise : List (List ℕ)
noise = [] ∷ (5 ∷ []) ∷ []

five_is_noise : decode_frame (5 ∷ []) ≡ err (frame_error overrun)
unfolding decode_frame strip_terminator cobs_decode decode_loop
five_is_noise = refl

noise-IsNoise : All IsNoise noise
noise-IsNoise = ((tt, inl refl), ((nonzero (5 ∷ []) refl, inr (overrun, five_is_noise)), tt))

ack_decodes : decode_frame ack_wire ≡ ok (cmd_byte ack, cmd_byte move ∷ [])
unfolding cmd_byte decode_frame strip_terminator cobs_decode decode_loop decode_body
    crc16_ccitt_false crc_loop crc_byte crc_rounds crc_round
ack_decodes = refl

read_decoded_frame_resync_example :
    (s' : Link) × (read_decoded_frame 100 link ≡ (ok (cmd_byte ack, cmd_byte move ∷ []), s'))
    × Took link (7 ∷ []) s'
read_decoded_frame_resync_example =
    read_decoded_frame_resync noise 100 link ack_wire (7 ∷ []) (cmd_byte ack, cmd_byte move ∷ [])
      noise-IsNoise (nonzero ack_wire refl) ack_decodes refl (omega arith)

read_decoded_frame-ne-out_of_fuel_example : (read_decoded_frame 100 link).0 ≢ err out_of_fuel
read_decoded_frame-ne-out_of_fuel_example = read_decoded_frame-ne-out_of_fuel 100 link

abbrev driver : Driver plain_host
driver = record { link = link; reply_timeout = 100; connect_grace = 5; pong_info = none }

abbrev error_wire : List ℕ
error_wire = 8 ∷ 255 ∷ 3 ∷ 1 ∷ 2 ∷ 33 ∷ 110 ∷ 181 ∷ []

abbrev error_line : Link
error_line = record {
  now = 3;
  arrivals = record { after = 4; chunk = error_wire ++ (0 ∷ []) } ∷ [];
  sent = [];
  rx_buffer = [];
}

error_decodes : decode_frame error_wire ≡ ok (cmd_byte error, 1 ∷ 2 ∷ 33 ∷ [])
unfolding cmd_byte decode_frame strip_terminator cobs_decode decode_loop decode_body
    crc16_ccitt_false crc_loop crc_byte crc_rounds crc_round
error_decodes = refl

ack-Answers : Answers link 100 noise ack_wire (7 ∷ [])
ack-Answers = record {
  noisy = noise-IsNoise;
  framed = nonzero ack_wire refl;
  split = refl;
  early = omega arith;
}

error-Answers : Answers error_line 100 [] error_wire []
error-Answers = record {
  noisy = tt;
  framed = nonzero error_wire refl;
  split = refl;
  early = omega arith;
}

send_expect_ack_acknowledged_example :
    (s' : Driver plain_host) × (send_expect_ack plain_host move (2 ∷ 0 ∷ 194 ∷ 1 ∷ []) driver
      ≡ (ok tt, s'))
    × (s'.link.sent ≡ move_wire ∷ [])
    × (s'.link.rx_buffer ++ stream s'.link.arrivals ≡ 7 ∷ [])
send_expect_ack_acknowledged_example =
    send_expect_ack_acknowledged plain_host move (2 ∷ 0 ∷ 194 ∷ 1 ∷ []) move_wire driver noise
      ack_wire (7 ∷ []) move_fits ack-Answers ack_decodes

abbrev pong_line : List Arrival
pong_line =
    record {
      after = 3;
      chunk =
          4 ∷ 17 ∷ 16 ∷ 1 ∷ 12 ∷ 2 ∷ 44 ∷ 97 ∷ 98 ∷ 99 ∷ 100 ∷ 48 ∷ 49 ∷ 50 ∷ 51 ∷ 2 ∷ 1 ∷ 1 ∷ 3
          ∷ 46 ∷ 72 ∷ 0 ∷ [];
    }
    ∷ []

abbrev online : Pong plain_host
online = record {
  proto_version = 1;
  fw_major = 0;
  fw_minor = 2;
  fw_patch = 44;
  git_short_sha = 97 ∷ 98 ∷ 99 ∷ 100 ∷ 48 ∷ 49 ∷ 50 ∷ 51 ∷ [];
  axis_count = 2;
}

abbrev connected : Driver plain_host
connected = record driver {
  link = record { now = 13; arrivals = []; sent = []; rx_buffer = [] };
  pong_info = some online;
}

connects : connect plain_host pong_line driver ≡ (ok online, connected)
unfolding connect try_unsolicited_pong no_frame or_ping pong_of unpack_pong read_decoded_frame
    read_decoded_loop read_wire_frame read_wire_loop read read_from split_terminator classify
    decoded cmd_byte decode_frame strip_terminator cobs_decode decode_loop decode_body
    crc16_ccitt_false crc_loop crc_byte crc_rounds crc_round
connects = refl
