-- ===== src/Backend/Ws/Sessions.antt =====
-- One node's connection from its start to its end, as the requests for capabilities see it.
use mathlib.Core.Path.{ap₂}
use rfmesh_workspace.Base.{
  ℕ, ◌≡◌, refl, ap, ◌∙◌, List, [], ◌∷◌, Option, none, some, true, false, ==_refl, Bool-cases, inl,
  inr,
}
use rfmesh_workspace.Base.Dict.{number_key, lookup, insert, lookup-insert}
use rfmesh_workspace.Backend.Ws.{
  Registries, is_own, register, unregister, get, set_hello, get_hello, is_online, capabilities_of,
  get_node_capabilities,
}
use rfmesh_workspace.Backend.Ws.Lifetimes.{get-unregister}
use rfmesh_workspace.Backend.Ws.Frames.{
  node_hello, command_refused, node_state, comms_rx, comms_status, manual_steer, send_comms_message,
  all_stop, clear_fault, other_kind, Incoming, disconnect, no_text, not_json, not_a_dict, frame,
  handle_frame, receive_loop, node_socket,
}

module _ {Payload : Type 0} where
  -- The payload of the last hello before the connection ends.
  abbrev pub last_hello : List (Incoming Payload) → Option Payload → Option Payload
  last_hello [] known = known
  last_hello (disconnect ∷ incoming) known = known
  last_hello (no_text ∷ incoming) known = last_hello incoming known
  last_hello (not_json ∷ incoming) known = last_hello incoming known
  last_hello (not_a_dict ∷ incoming) known = last_hello incoming known
  last_hello (frame node_hello payload ∷ incoming) known = last_hello incoming (some payload)
  last_hello (frame _ payload ∷ incoming) known = last_hello incoming known

  -- The handler of frames writes to one snapshot and to no socket.
  receive_loop-hello :
      (n : ℕ) (incoming : List (Incoming Payload)) (r : Registries Payload)
      → ((receive_loop n incoming r).1.by_node ≡ r.by_node)
        × (get_hello n (receive_loop n incoming r).1 ≡ last_hello incoming (get_hello n r))
  unfolding receive_loop handle_frame set_hello
  receive_loop-hello n [] r = (refl, refl)
  receive_loop-hello n (disconnect ∷ incoming) r = (refl, refl)
  receive_loop-hello n (no_text ∷ incoming) r = receive_loop-hello n incoming r
  receive_loop-hello n (not_json ∷ incoming) r = receive_loop-hello n incoming r
  receive_loop-hello n (not_a_dict ∷ incoming) r = receive_loop-hello n incoming r
  receive_loop-hello n (frame node_hello payload ∷ incoming) r =
      let later = receive_loop-hello n incoming (set_hello n payload r) in
      let known : lookup n (insert n payload r.hello_by_node) ≡ some payload =
        lookup-insert n n payload r.hello_by_node ∙ rw (==_refl n) refl in
      (later.0, later.1 ∙ ap (last_hello incoming) known)
  receive_loop-hello n (frame command_refused payload ∷ incoming) r =
      receive_loop-hello n incoming r
  receive_loop-hello n (frame node_state payload ∷ incoming) r = receive_loop-hello n incoming r
  receive_loop-hello n (frame comms_rx payload ∷ incoming) r = receive_loop-hello n incoming r
  receive_loop-hello n (frame comms_status payload ∷ incoming) r = receive_loop-hello n incoming r
  receive_loop-hello n (frame manual_steer payload ∷ incoming) r = receive_loop-hello n incoming r
  receive_loop-hello n (frame send_comms_message payload ∷ incoming) r =
      receive_loop-hello n incoming r
  receive_loop-hello n (frame all_stop payload ∷ incoming) r = receive_loop-hello n incoming r
  receive_loop-hello n (frame clear_fault payload ∷ incoming) r = receive_loop-hello n incoming r
  receive_loop-hello n (frame other_kind payload ∷ incoming) r = receive_loop-hello n incoming r

  get_hello-unregister :
      (n m ws : ℕ) (r : Registries Payload) → get_hello n (unregister m ws r) ≡ get_hello n r
  unfolding unregister
  get_hello-unregister n m ws r = elim (Bool-cases (is_own (lookup m r.by_node) ws)) [
    | inl own ↦ rw own refl
    | inr newer ↦ rw newer refl
  ]

  is_online_missing : (n : ℕ) (r : Registries Payload) → get n r ≡ none → is_online n r ≡ false
  unfolding get
  is_online_missing n r h = ap (λ o. elim o [ none ↦ false | some _ ↦ true ]) h

  -- After a connection of a node has ended, with no other handler's changes in between, its
  -- capabilities are reported as those of the last hello it sent, or of the hello known before if it
  -- sent none, and the node is reported as offline; without any hello the answer is 404.
  pub node_socket-capabilities :
      (n ws : ℕ) (incoming : List (Incoming Payload)) (r : Registries Payload)
      → get_node_capabilities n (node_socket n ws incoming r).1
        ≡ capabilities_of (last_hello incoming (get_hello n r)) false
  unfolding get_node_capabilities node_socket register get
  node_socket-capabilities n ws incoming r =
      let started = register n ws r in
      let done = receive_loop n incoming started in
      let (sockets, hellos) = receive_loop-hello n incoming started in
      let own : get n done.1 ≡ some ws =
        ap (lookup n) sockets ∙ lookup-insert n n ws r.by_node ∙ rw (==_refl n) refl in
      let gone : get n (unregister n ws done.1) ≡ none =
        get-unregister n n ws done.1 ∙ rw (==_refl n, own, ==_refl ws) refl in
      ap₂ capabilities_of (get_hello-unregister n n ws done.1 ∙ hellos)
        (is_online_missing n (unregister n ws done.1) gone)
