-- ===== src/Node/Bearers.antt =====
-- packages/rfmesh-node/src/rfmesh_node/bearer: the single bearers over their transports, wifi.py (UDP
-- datagrams), lora.py (a loopback in memory; the serial line is not implemented) and http.py
-- (requests to the backend). The socket's datagrams and the outcome of a request are given.
pub mod Delivery
use rfmesh_workspace.Base.{
  ℕ, ◌+◌, List, [], ◌∷◌, ◌++◌, Option, none, some, Bool, true, false, length, if◌then◌else◌,
}
use rfmesh_workspace.Base.Results.{Try, ok, err, refuse, ◌>>◌, ◌>>=◌}
use rfmesh_workspace.Node.Envelope.{
  EnvelopeError, too_large, decode_error, BearingReport, Message, bearing, status, fix, Codec,
  encode_envelope, decode_envelope, strip_pseudospectrum,
}

-- What ends a send besides an envelope's error.
pub data SendError : Type 0 where
  is_closed not_implemented : SendError
  envelope_error : EnvelopeError → SendError

abbrev pub lift_error : {A : Type 0} → Try EnvelopeError A → Try SendError A
lift_error (err e) = err (envelope_error e)
lift_error (ok a) = ok a

-- `WifiBearer`: the socket is open or closed; what was sent is kept.
pub record WifiBearer : Type 0 where
  pub is_open : Bool
  pub datagrams : List (List ℕ)

-- `LoraBearer`, with the inbox of its loopback.
pub record LoraBearer (M : Type 0) : Type 0 where
  pub loopback : Bool
  pub loopback_inbox : List M
  pub last_envelope_bytes : ℕ
  pub closed : Bool

-- A message that a receiver hands on: a bearing or a status, never a fix.
abbrev pub keep_message :
    {R S F : Type 0} → Message R S F → List (Message R S F) → List (Message R S F)
keep_message (bearing b) rest = bearing b ∷ rest
keep_message (status s) rest = status s ∷ rest
keep_message (fix f) rest = rest

module _ {R S F : Type 0} (codec : Codec R S F) where
  -- `_send_bytes`
  abbrev pub send_bytes : List ℕ → WifiBearer → Try SendError WifiBearer
  send_bytes bytes s =
      if s.is_open then ok (record s { datagrams = s.datagrams ++ (bytes ∷ []) }) else err is_closed

  -- `send_bearing` and `send_status`
  unfoldable pub wifi_send : Message R S F → WifiBearer → Try SendError WifiBearer
  wifi_send message s = lift_error (encode_envelope codec message) >>= λ bytes. send_bytes bytes s

  -- One datagram: only the decoding error is caught.
  abbrev pub after_datagram :
      Try EnvelopeError (Message R S F)
      → Try EnvelopeError (List (Message R S F))
      → Try EnvelopeError (List (Message R S F))
  after_datagram (err decode_error) later = later
  after_datagram (err too_large) later = err too_large
  after_datagram (ok message) later = later >>= λ rest. ok (keep_message message rest)

  -- The datagrams that are there until the socket would block.
  unfoldable pub drain : List (List ℕ) → Try EnvelopeError (List (Message R S F))
  drain [] = ok []
  drain (bytes ∷ datagrams) = after_datagram (decode_envelope codec bytes) (drain datagrams)

  unfoldable pub wifi_receive :
      List (List ℕ) → WifiBearer → Try EnvelopeError (List (Message R S F))
  wifi_receive datagrams s = if s.is_open then drain datagrams else ok []

  abbrev pub wifi_close : WifiBearer → WifiBearer
  wifi_close s = record s { is_open = false }

  -- `_write_bytes`; the error of a message too large is not caught.
  abbrev pub put_inbox :
      Try EnvelopeError (Message R S F)
      → LoraBearer (Message R S F)
      → Try SendError (LoraBearer (Message R S F))
  put_inbox (err decode_error) s = ok s
  put_inbox (err too_large) s = err (envelope_error too_large)
  put_inbox (ok message) s =
      ok (record s { loopback_inbox = s.loopback_inbox ++ keep_message message [] })

  unfoldable pub write_bytes :
      List ℕ → LoraBearer (Message R S F) → Try SendError (LoraBearer (Message R S F))
  write_bytes bytes s =
      if s.loopback then put_inbox (decode_envelope codec bytes) s else err not_implemented

  abbrev pub compact : Message R S F → Message R S F
  compact (bearing b) = bearing (strip_pseudospectrum b)
  compact (status s) = status s
  compact (fix f) = fix f

  unfoldable pub lora_send :
      Message R S F → LoraBearer (Message R S F) → Try SendError (LoraBearer (Message R S F))
  lora_send message s =
      refuse s.closed is_closed
      >> (lift_error (encode_envelope codec (compact message)) >>= λ bytes.
          write_bytes bytes (record s { last_envelope_bytes = length bytes }))

abbrev pub lora_receive : {M : Type 0} → LoraBearer M → List M × LoraBearer M
lora_receive s = (s.loopback_inbox, record s { loopback_inbox = [] })

abbrev pub lora_close : {M : Type 0} → LoraBearer M → LoraBearer M
lora_close s = record s { closed = true; loopback_inbox = [] }

-- `HttpBearer`: whether the status route is still tried, and what was posted.
pub record HttpBearer (Bearing Status : Type 0) : Type 0 where
  pub status_enabled : Bool
  pub bearing_posts : List Bearing
  pub status_posts : List Status

module _ {Bearing Status : Type 0} where
  abbrev pub http_send_bearing : Bearing → HttpBearer Bearing Status → HttpBearer Bearing Status
  http_send_bearing report s = record s { bearing_posts = s.bearing_posts ++ (report ∷ []) }

  -- A request that fails switches the route off.
  unfoldable pub http_send_status :
      Bool → Status → HttpBearer Bearing Status → HttpBearer Bearing Status
  http_send_status succeeds heartbeat s =
      if s.status_enabled
      then record s { status_posts = s.status_posts ++ (heartbeat ∷ []); status_enabled = succeeds }
      else s

  unfoldable pub http_send_statuses :
      List (Bool × Status) → HttpBearer Bearing Status → HttpBearer Bearing Status
  http_send_statuses [] s = s
  http_send_statuses ((succeeds, heartbeat) ∷ later) s =
      http_send_statuses later (http_send_status succeeds heartbeat s)
