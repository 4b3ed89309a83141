-- ===== src/Servo/Driver/Connecting.antt =====
-- What holds when `ServoDriver.connect` returns.
use rfmesh_workspace.Base.{
  ◌≡◌, refl, sym, ap, ◌∙◌, List, [], some, ◌==◌, ==→eq, if◌then◌else◌, Bool-cases, inl, inr,
}
use rfmesh_workspace.Servo.Errors.{Result, ok, err, incompatible_protocol}
use rfmesh_workspace.Servo.Host.{Host}
use rfmesh_workspace.Servo.Protocol.{protocol_version}
use rfmesh_workspace.Servo.Messages.Replies.{Pong}
use rfmesh_workspace.Servo.Link.{Arrival}
use rfmesh_workspace.Servo.Driver.{
  Driver, connect, continue, try_unsolicited_pong, or_ping, pong_of, lift,
}

module _ (host : Host) where
  check_version : Pong host → Driver host → Result (Pong host) × Driver host
  check_version p s =
      if p.proto_version == protocol_version
      then (ok p, record s { pong_info = some p })
      else (err incompatible_protocol, s)

  check_version_lem :
      (got : Result (Pong host) × Driver host) (p : Pong host) (s' : Driver host)
      → continue host check_version got ≡ (ok p, s')
      → (p.proto_version ≡ protocol_version) × (s'.pong_info ≡ some p)
  unfolding check_version
  check_version_lem (err e, s) p s' h =
      let first : ◌≡◌ {A = Result (Pong host)} (err e) (ok p) = ap (λ r. r.0) h in absurd (cc)
  check_version_lem (ok q, s) p s' h = elim (Bool-cases (q.proto_version == protocol_version)) [
    | inl right ↦
        let opened : continue host check_version (ok q, s)
            ≡ (ok q, record s { pong_info = some q }) =
          rw right refl in
        let here : ◌≡◌ {A = Result (Pong host) × Driver host}
            (ok q, record s { pong_info = some q }) (ok p, s') =
          sym opened ∙ h in
        let oks : ◌≡◌ {A = Result (Pong host)} (ok q) (ok p) = ap (λ r. r.0) here in
        let same : q ≡ p = cc in
        (
          ap (λ (x : Pong host). x.proto_version) (sym same)
              ∙ ==→eq q.proto_version protocol_version right,
          ap (λ r. r.1.pong_info) (sym here) ∙ ap some same,
        )
    | inr wrong ↦
        let opened : continue host check_version (ok q, s) ≡ (err incompatible_protocol, s) =
          rw wrong refl in
        let first : ◌≡◌ {A = Result (Pong host)} (err incompatible_protocol) (ok p) =
          ap (λ r. r.0) (sym opened ∙ h) in
        absurd (cc)
  ]

  -- The PONG that `connect` gets to see, before it looks at the version.
  greeting : List Arrival → Driver host → Result (Pong host) × Driver host
  greeting left s =
      continue host (λ reply. lift host (pong_of host reply))
        (continue host (or_ping host) (
          try_unsolicited_pong host
            (record s { link = record s.link { arrivals = left; rx_buffer = [] } })))

  -- If `connect` returns a PONG, the PONG names the driver's protocol version and is the one that the
  -- driver keeps as its firmware information.
  pub connect_checked :
      (left : List Arrival) (s s' : Driver host) (p : Pong host)
      → connect host left s ≡ (ok p, s')
      → (p.proto_version ≡ protocol_version) × (s'.pong_info ≡ some p)
  unfolding connect check_version greeting
  connect_checked left s s' p h = check_version_lem (greeting left s) p s' h
