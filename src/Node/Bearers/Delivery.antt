-- ===== src/Node/Bearers/Delivery.antt =====
-- What the single bearers deliver of what was sent, with other bytes in between.
use mathlib.Core.Path.{Path}
use rfmesh_workspace.Base.{
  ℕ, ◌≤◌, ◌≡◌, refl, sym, ap, ◌∙◌, List, [], ◌∷◌, ◌++◌, append-nil, Bool, true, false, ltb,
  Bool-cases, inl, inr, All, length, if◌then◌else◌, arith,
}
use rfmesh_workspace.Base.Results.{Try, ok, err}
use rfmesh_workspace.Node.Envelope.{
  EnvelopeError, too_large, decode_error, Message, Codec, body_of, encode_envelope, decode_envelope,
}
use rfmesh_workspace.Node.Envelope.RoundTrip.{
  decode_envelope-encode_envelope, decode_envelope-IsCaught, IsCaught,
}
use rfmesh_workspace.Node.Bearers.{
  WifiBearer, LoraBearer, keep_message, after_datagram, drain, wifi_receive, write_bytes, compact,
  lora_send, HttpBearer, http_send_status, http_send_statuses,
}

module _ {R S F : Type 0} (codec : Codec R S F) where
  encode_refuses :
      (message : Message R S F)
      → ltb 65536 (length (body_of codec message)) ≡ true
      → encode_envelope codec message ≡ err too_large
  unfolding encode_envelope
  encode_refuses message large = rw large refl

  -- What was encoded decodes to the message.
  decode-encoded :
      (message : Message R S F) (bytes : List ℕ)
      → encode_envelope codec message ≡ ok bytes
      → decode_envelope codec bytes ≡ ok message
  decode-encoded message bytes h = elim (Bool-cases (ltb 65536 (length (body_of codec message)))) [
    | inl large ↦ absurd (encode_too_large large)
    | inr small ↦
        let (made, encoded, size, decoded) =
          decode_envelope-encode_envelope codec message [] (ground arith) in
        let same : made ≡ bytes = ok_injective made bytes (sym encoded ∙ h) in
        ap (decode_envelope codec) (sym same ∙ sym (append-nil made)) ∙ decoded
  ]
    where
      ok_injective : (a b : List ℕ) → Path (Try EnvelopeError (List ℕ)) (ok a) (ok b) → a ≡ b
      ok_injective a b e = cc

      encode_too_large : ltb 65536 (length (body_of codec message)) ≡ true → ⊥
      encode_too_large large =
          let clash : err too_large ≡ ok bytes = sym (encode_refuses message large) ∙ h in
          absurd (cc)

  -- A datagram on the way: one that was made of a message, or bytes that decode to no message.
  pub data Arrival : Type 0 where
    sent :
        (message : Message R S F) (bytes : List ℕ)
        → encode_envelope codec message ≡ ok bytes
        → Arrival
    junk : (bytes : List ℕ) → decode_envelope codec bytes ≡ err decode_error → Arrival

  abbrev pub datagrams_of : List Arrival → List (List ℕ)
  datagrams_of [] = []
  datagrams_of (sent message bytes encoded ∷ arrivals) = bytes ∷ datagrams_of arrivals
  datagrams_of (junk bytes bad ∷ arrivals) = bytes ∷ datagrams_of arrivals

  abbrev pub messages_of : List Arrival → List (Message R S F)
  messages_of [] = []
  messages_of (sent message bytes encoded ∷ arrivals) = keep_message message (messages_of arrivals)
  messages_of (junk bytes bad ∷ arrivals) = messages_of arrivals

  drain-datagrams_of :
      (arrivals : List Arrival) → drain codec (datagrams_of arrivals) ≡ ok (messages_of arrivals)
  unfolding drain
  drain-datagrams_of [] = refl
  drain-datagrams_of (sent message bytes encoded ∷ arrivals) =
      rw (decode-encoded message bytes encoded, drain-datagrams_of arrivals) refl
  drain-datagrams_of (junk bytes bad ∷ arrivals) = rw (bad, drain-datagrams_of arrivals) refl

  -- While the Wi-Fi bearer is open, a call of `receive` returns the bearings and statuses that were
  -- encoded, each as it was and in the order of the datagrams, whatever undecodable datagrams and
  -- fixes come in between.
  pub wifi_receive-datagrams_of :
      (arrivals : List Arrival) (s : WifiBearer)
      → s.is_open ≡ true
      → wifi_receive codec (datagrams_of arrivals) s ≡ ok (messages_of arrivals)
  unfolding wifi_receive
  wifi_receive-datagrams_of arrivals s opened = rw opened (drain-datagrams_of arrivals)

  abbrev pub IsOk : Try EnvelopeError (List (Message R S F)) → Type 0
  IsOk (err e) = ⊥
  IsOk (ok messages) = Unit

  after_datagram-IsOk :
      (decoded : Try EnvelopeError (Message R S F))
      (later : Try EnvelopeError (List (Message R S F)))
      → IsCaught codec decoded
      → IsOk later
      → IsOk (after_datagram codec decoded later)
  after_datagram-IsOk (err too_large) later caught h = elim caught [ ]
  after_datagram-IsOk (err decode_error) later caught h = h
  after_datagram-IsOk (ok message) (err e) caught h = elim h [ ]
  after_datagram-IsOk (ok message) (ok rest) caught h = tt

  drain-IsOk :
      (datagrams : List (List ℕ))
      → All (λ bytes. length bytes ≤ 65536) datagrams
      → IsOk (drain codec datagrams)
  unfolding drain
  drain-IsOk [] h = tt
  drain-IsOk (bytes ∷ datagrams) h =
      after_datagram-IsOk (decode_envelope codec bytes) (drain codec datagrams)
        (decode_envelope-IsCaught codec bytes h.0) (drain-IsOk datagrams h.1)

  -- Whatever datagrams of at most 65,536 bytes come in, `receive` of the Wi-Fi bearer raises nothing.
  pub wifi_receive-IsOk :
      (datagrams : List (List ℕ)) (s : WifiBearer)
      → All (λ bytes. length bytes ≤ 65536) datagrams
      → IsOk (wifi_receive codec datagrams s)
  unfolding wifi_receive
  wifi_receive-IsOk datagrams s h = elim (Bool-cases s.is_open) [
    | inl opened ↦ rw opened (drain-IsOk datagrams h)
    | inr closed ↦ rw closed tt
  ]

  -- A message that is sent on an open loopback stands at the end of the inbox, a bearing without its
  -- debug payload, and the size of its envelope is noted.
  pub lora_send-loopback :
      (message : Message R S F) (bytes : List ℕ) (s : LoraBearer (Message R S F))
      → s.loopback ≡ true
      → s.closed ≡ false
      → encode_envelope codec (compact codec message) ≡ ok bytes
      → lora_send codec message s
        ≡ ok (record s {
          loopback_inbox = s.loopback_inbox ++ keep_message (compact codec message) [];
          last_envelope_bytes = length bytes;
        })
  unfolding lora_send write_bytes
  lora_send-loopback message bytes s loops opened encoded =
      rw (opened, encoded, loops, decode-encoded (compact codec message) bytes encoded) refl

if_false : {A : Type 0} (b : Bool) (x y : A) → b ≡ false → (if b then x else y) ≡ y
if_false false x y h = refl
if_false true x y h = absurd (cc)

if_true : {A : Type 0} (b : Bool) (x y : A) → b ≡ true → (if b then x else y) ≡ x
if_true true x y h = refl
if_true false x y h = absurd (cc)

module _ {Bearing Status : Type 0} where
  http_send_status_disabled :
      (succeeds : Bool) (heartbeat : Status) (s : HttpBearer Bearing Status)
      → s.status_enabled ≡ false
      → http_send_status succeeds heartbeat s ≡ s
  unfolding http_send_status
  http_send_status_disabled succeeds heartbeat s off = if_false s.status_enabled _ s off

  http_send_statuses_disabled :
      (later : List (Bool × Status)) (s : HttpBearer Bearing Status)
      → s.status_enabled ≡ false
      → http_send_statuses later s ≡ s
  unfolding http_send_statuses
  http_send_statuses_disabled [] s off = refl
  http_send_statuses_disabled ((succeeds, heartbeat) ∷ later) s off =
      ap (http_send_statuses later) (http_send_status_disabled succeeds heartbeat s off)
      ∙ http_send_statuses_disabled later s off

  switched_off :
      (heartbeat : Status) (s : HttpBearer Bearing Status)
      → (http_send_status false heartbeat s).status_enabled ≡ false
  unfolding http_send_status
  switched_off heartbeat s = elim (Bool-cases s.status_enabled) [
    | inl on ↦ ap (λ t. t.status_enabled) (if_true s.status_enabled _ s on)
    | inr off ↦ ap (λ t. t.status_enabled) (if_false s.status_enabled _ s off) ∙ off
  ]

  -- Once a request for the status route has failed, no later heartbeat is posted, also when every
  -- later request would succeed.
  pub http_send_statuses_once_failed :
      (heartbeat : Status) (later : List (Bool × Status)) (s : HttpBearer Bearing Status)
      → http_send_statuses later (http_send_status false heartbeat s)
        ≡ http_send_status false heartbeat s
  http_send_statuses_once_failed heartbeat later s =
      http_send_statuses_disabled later _ (switched_off heartbeat s)
