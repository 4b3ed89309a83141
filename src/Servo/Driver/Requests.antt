-- ===== src/Servo/Driver/Requests.antt =====
-- What a request of `ServoDriver` ends with, given what the firmware answers.
use rfmesh_workspace.Base.{
  ℕ, ◌≡◌, ◌<◌, refl, ap, ◌∙◌, List, [], ◌∷◌, ◌++◌, ◌==◌, if◌then◌else◌, ==_refl, All,
}
use rfmesh_workspace.Servo.Errors.{Result, ok, err, servo_command, protocol_error}
use rfmesh_workspace.Servo.Host.{Host}
use rfmesh_workspace.Servo.Protocol.{encode_frame, decode_frame}
use rfmesh_workspace.Servo.Protocol.Cmd.{Cmd, cmd_byte, ack, error}
use rfmesh_workspace.Servo.Messages.Replies.{unpack_ack, ErrorReply, unpack_error}
use rfmesh_workspace.Servo.Link.{Link, write, read_decoded_frame, stream}
use rfmesh_workspace.Servo.Link.Reassembly.{IsNonzero, delay}
use rfmesh_workspace.Servo.Link.Resync.{IsNoise, terminated, read_decoded_frame_resync}
use rfmesh_workspace.Servo.Driver.{
  Driver, send, await_reply, send_expect_ack, continue, checked_reply,
}

-- The line holds, after any noise, the frame `wire`, all of it in time for the reply.
pub record Answers (s : Link) (timeout : ℕ) (noise : List (List ℕ)) (wire tail : List ℕ)
    : Type 0 where
  pub noisy : All IsNoise noise
  pub framed : All IsNonzero wire
  pub split : s.rx_buffer ++ stream s.arrivals ≡ terminated noise ++ (wire ++ (0 ∷ tail))
  pub early : delay s.arrivals < timeout

module _ (host : Host) where
  send_runs :
      (cmd : Cmd) (payload sent : List ℕ) (s : Driver host)
      → encode_frame (cmd_byte cmd) payload ≡ ok sent
      → send host cmd payload s ≡ (ok tt, record s { link = write sent s.link })
  unfolding send
  send_runs cmd payload sent s fits = rw fits refl

  await_reply_runs :
      (s : Driver host) (reply : ℕ × List ℕ) (s' : Link)
      → read_decoded_frame s.reply_timeout s.link ≡ (ok reply, s')
      → await_reply host ack s ≡ checked_reply host ack reply (record s { link = s' })
  unfolding await_reply
  await_reply_runs s reply s' runs =
      ap (λ got. continue host (checked_reply host ack) (got.0, record s { link = got.1 })) runs

  -- What is left of a request once its frame is sent and a frame came back.
  judge : Cmd → Result (ℕ × List ℕ) × Driver host → Result (Unit {0}) × Driver host
  judge cmd = continue host (λ reply s.
      continue host
        (λ echoed s. (if echoed.cmd == cmd_byte cmd then ok tt else err protocol_error, s))
        (unpack_ack reply.1, s))

  send_expect_ack_runs :
      (cmd : Cmd) (payload sent : List ℕ) (s : Driver host) (reply : ℕ × List ℕ) (s' : Link)
      → encode_frame (cmd_byte cmd) payload ≡ ok sent
      → read_decoded_frame s.reply_timeout (write sent s.link) ≡ (ok reply, s')
      → send_expect_ack host cmd payload s
        ≡ judge cmd (checked_reply host ack reply (record s { link = s' }))
  unfolding send_expect_ack judge
  send_expect_ack_runs cmd payload sent s reply s' fits runs =
      ap (continue host (λ _. λ s. judge cmd (await_reply host ack s)))
        (send_runs cmd payload sent s fits)
      ∙ ap (judge cmd) (await_reply_runs (record s { link = write sent s.link }) reply s' runs)

  judge_ack :
      (cmd : Cmd) (s : Driver host)
      → judge cmd (checked_reply host ack (cmd_byte ack, cmd_byte cmd ∷ []) s) ≡ (ok tt, s)
  unfolding judge checked_reply cmd_byte unpack_ack
  judge_ack cmd s = rw (==_refl (cmd_byte cmd)) refl

  judge_error :
      (cmd : Cmd) (payload : List ℕ) (e : ErrorReply host) (s : Driver host)
      → unpack_error host payload ≡ ok e
      → judge cmd (checked_reply host ack (cmd_byte error, payload) s)
        ≡ (err (servo_command e.original_cmd e.error_code (host.encode_utf8 e.message)), s)
  unfolding judge checked_reply cmd_byte
  judge_error cmd payload e s is_error = rw is_error refl

  -- If a request fits a frame and the line brings, in time and after any number of malformed frames,
  -- the ACK that names the request's command, the request succeeds: one frame was written, the
  -- request's, and what stands behind the ACK is kept.
  pub send_expect_ack_acknowledged :
      (cmd : Cmd) (payload sent : List ℕ) (s : Driver host) (noise : List (List ℕ))
      (wire tail : List ℕ)
      → encode_frame (cmd_byte cmd) payload ≡ ok sent
      → Answers s.link s.reply_timeout noise wire tail
      → decode_frame wire ≡ ok (cmd_byte ack, cmd_byte cmd ∷ [])
      → (s' : Driver host) × (send_expect_ack host cmd payload s ≡ (ok tt, s'))
        × (s'.link.sent ≡ s.link.sent ++ (sent ∷ []))
        × (s'.link.rx_buffer ++ stream s'.link.arrivals ≡ tail)
  unfolding write
  send_expect_ack_acknowledged cmd payload sent s noise wire tail fits answers good =
      let (s', runs, took) =
        read_decoded_frame_resync noise s.reply_timeout (write sent s.link) wire tail _
          answers.noisy answers.framed good answers.split answers.early in
      (
        record s { link = s' },
        send_expect_ack_runs cmd payload sent s _ s' fits runs
            ∙ judge_ack cmd (record s { link = s' }),
        took.silent,
        took.left,
      )

  -- If the line brings an ERROR frame instead, the request raises the command error with the
  -- command, the code and the message that the frame names; the request was written once, and what
  -- stands behind the frame is kept.
  pub send_expect_ack_refused :
      (cmd : Cmd) (payload sent : List ℕ) (s : Driver host) (noise : List (List ℕ))
      (wire tail : List ℕ) (answer : List ℕ) (e : ErrorReply host)
      → encode_frame (cmd_byte cmd) payload ≡ ok sent
      → Answers s.link s.reply_timeout noise wire tail
      → decode_frame wire ≡ ok (cmd_byte error, answer)
      → unpack_error host answer ≡ ok e
      → (s' : Driver host) × (send_expect_ack host cmd payload s
          ≡ (err (servo_command e.original_cmd e.error_code (host.encode_utf8 e.message)), s'))
        × (s'.link.sent ≡ s.link.sent ++ (sent ∷ []))
        × (s'.link.rx_buffer ++ stream s'.link.arrivals ≡ tail)
  unfolding write
  send_expect_ack_refused cmd payload sent s noise wire tail answer e fits answers good named =
      let (s', runs, took) =
        read_decoded_frame_resync noise s.reply_timeout (write sent s.link) wire tail _
          answers.noisy answers.framed good answers.split answers.early in
      (
        record s { link = s' },
        send_expect_ack_runs cmd payload sent s _ s' fits runs
            ∙ judge_error cmd answer e (record s { link = s' }) named,
        took.silent,
        took.left,
      )
