-- ===== src/Backend/Ws/Frames.antt =====
-- deployment/backend/src/both3_poc/ws.py: the handler of a node's socket from its connection to its
-- end, and the requests with the validation of their bodies, which the pydantic models do.
use rfmesh_workspace.Base.{
  ℕ, ◌+◌, List, [], ◌∷◌, ◌++◌, Option, none, some, not, ◌&&◌, ◌==◌, length, if◌then◌else◌,
}
use rfmesh_workspace.Base.Results.{Try, ok, err}
use rfmesh_workspace.Backend.Ws.{
  Registries, Refusal, invalid, Send, register, unregister, set_hello, send_command, broadcast_loop,
  node_ids,
}

-- The value under the key "kind" of a frame or of a request.
pub data Kind : Type 0 where
  node_hello command_refused node_state comms_rx comms_status : Kind
  manual_steer send_comms_message all_stop clear_fault other_kind : Kind

-- What `ws.receive()` gives: the end of the connection, or a text, if it is not empty and decodes to a
-- JSON object.
pub data Incoming (Payload : Type 0) : Type 0 where
  disconnect no_text not_json not_a_dict : Incoming Payload
  frame : Kind → Payload → Incoming Payload

-- What goes out to the user interface: a payload under its node's id, or as it came in.
pub data Push (Payload : Type 0) : Type 0 where
  wrapped : Kind → ℕ → Payload → Push Payload
  verbatim : Payload → Push Payload

module _ {Payload : Type 0} where
  unfoldable pub handle_frame :
      ℕ → Kind → Payload → Registries Payload → List (Push Payload) × Registries Payload
  handle_frame node_id node_hello payload r =
      (wrapped node_hello node_id payload ∷ [], set_hello node_id payload r)
  handle_frame node_id command_refused payload r = (wrapped command_refused node_id payload ∷ [], r)
  handle_frame node_id node_state payload r = (wrapped node_state node_id payload ∷ [], r)
  handle_frame node_id comms_rx payload r = (verbatim payload ∷ [], r)
  handle_frame node_id comms_status payload r = (verbatim payload ∷ [], r)
  handle_frame node_id manual_steer payload r = ([], r)
  handle_frame node_id send_comms_message payload r = ([], r)
  handle_frame node_id all_stop payload r = ([], r)
  handle_frame node_id clear_fault payload r = ([], r)
  handle_frame node_id other_kind payload r = ([], r)

  -- The loop of `node_socket`; the connection may also end by an exception, where the list ends.
  unfoldable pub receive_loop :
      ℕ → List (Incoming Payload) → Registries Payload → List (Push Payload) × Registries Payload
  receive_loop node_id [] r = ([], r)
  receive_loop node_id (disconnect ∷ incoming) r = ([], r)
  receive_loop node_id (no_text ∷ incoming) r = receive_loop node_id incoming r
  receive_loop node_id (not_json ∷ incoming) r = receive_loop node_id incoming r
  receive_loop node_id (not_a_dict ∷ incoming) r = receive_loop node_id incoming r
  receive_loop node_id (frame kind payload ∷ incoming) r =
      let handled = handle_frame node_id kind payload r in
      let later = receive_loop node_id incoming handled.1 in (handled.0 ++ later.0, later.1)

  unfoldable pub node_socket :
      ℕ
      → ℕ
      → List (Incoming Payload)
      → Registries Payload
      → List (Push Payload) × Registries Payload
  node_socket node_id ws incoming r =
      let done = receive_loop node_id incoming (register node_id ws r) in
      (done.0, unregister node_id ws done.1)

-- The body of a request: its kind, if it names one, and the rest.
pub record Request (Body : Type 0) : Type 0 where
  pub kind : Option Kind
  pub body : Body

abbrev pub kind_or : {Body : Type 0} → Kind → Request Body → Kind
kind_or default request = elim request.kind [ none ↦ default | some named ↦ named ]

module _ {Body Command : Type 0} (validate : Kind → Body → Option Command) where
  -- The model that a kind names, or none for a kind that the route does not take.
  abbrev pub validate_command : Kind → Body → Option Command
  validate_command manual_steer body = validate manual_steer body
  validate_command send_comms_message body = validate send_comms_message body
  validate_command _ body = none

  abbrev pub validate_broadcast : Kind → Body → Option Command
  validate_broadcast all_stop body = validate all_stop body
  validate_broadcast _ body = none

abbrev pub with_command : {Command : Type 0} → Command → Try Refusal ℕ → Try Refusal (Command × ℕ)
with_command command (err e) = err e
with_command command (ok ws) = ok (command, ws)

module _ {Hello Command : Type 0} where
  -- The requests behind their validation. What a send does may depend on the command.
  unfoldable pub post_valid :
      (Command → Send Hello)
      → ℕ
      → Option Command
      → Registries Hello
      → Try Refusal (Command × ℕ) × Registries Hello
  post_valid send node_id none r = (err invalid, r)
  post_valid send node_id (some command) r =
      let sent = send_command (send command) node_id r in (with_command command sent.0, sent.1)

  unfoldable pub broadcast_valid :
      (Command → Send Hello)
      → Option Command
      → Registries Hello
      → Try Refusal (List ℕ × List ℕ) × Registries Hello
  broadcast_valid send none r = (err invalid, r)
  broadcast_valid send (some command) r =
      let done = broadcast_loop (send command) (node_ids r) r in (ok done.0, done.1)

module _ {Hello Body Command : Type 0} (validate : Kind → Body → Option Command) where
  unfoldable pub post_command :
      (Command → Send Hello)
      → ℕ
      → Request Body
      → Registries Hello
      → Try Refusal (Command × ℕ) × Registries Hello
  post_command send node_id request r =
      post_valid send node_id
        (validate_command validate (kind_or manual_steer request) request.body) r

  -- The route of `clear_fault` has one model and does not look at the kind by itself.
  unfoldable pub post_clear_fault :
      (Command → Send Hello)
      → ℕ
      → Body
      → Registries Hello
      → Try Refusal (Command × ℕ) × Registries Hello
  post_clear_fault send node_id body r = post_valid send node_id (validate clear_fault body) r

  unfoldable pub post_command_broadcast :
      (Command → Send Hello)
      → Request Body
      → Registries Hello
      → Try Refusal (List ℕ × List ℕ) × Registries Hello
  post_command_broadcast send request r =
      broadcast_valid send (validate_broadcast validate (kind_or all_stop request) request.body) r

-- `ingest_status`: a record that its model accepts gives a status, and any other an error text with
-- the place of the record.
abbrev pub note_record :
    {Status Text : Type 0}
    → ℕ
    → Try Text Status
    → List Status × List (ℕ × Text)
    → List Status × List (ℕ × Text)
note_record i (ok status) lists = (status ∷ lists.0, lists.1)
note_record i (err text) lists = (lists.0, (i, text) ∷ lists.1)

module _ {Item Status Text : Type 0} where
  unfoldable pub ingest_loop :
      (Item → Try Text Status) → ℕ → List Item → List Status × List (ℕ × Text)
  ingest_loop validate i [] = ([], [])
  ingest_loop validate i (item ∷ items) =
      note_record i (validate item) (ingest_loop validate (i + 1) items)

  -- The statuses that are pushed, and the answer: the errors with status 422 if none was accepted.
  unfoldable pub ingest_status :
      (Item → Try Text Status)
      → List Item
      → List Status × Try (List (ℕ × Text)) (ℕ × List (ℕ × Text))
  ingest_status validate items =
      let done = ingest_loop validate 0 items in
      let accepted = length done.0 in
      (
        done.0,
        if accepted == 0 && not (length done.1 == 0) then err done.1 else ok (accepted, done.1),
      )
