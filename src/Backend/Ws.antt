-- ===== src/Backend/Ws.antt =====
-- deployment/backend/src/both3_poc/ws.py: the sockets of the nodes and of the user interface, the frames
-- that come in on them, and the requests that send commands down to the nodes. A node id and a socket
-- are numbers, since the code only compares them. Whether a send on a socket raises, and what a
-- JSON text decodes to, is given.
pub mod Frames
pub mod Lifetimes
pub mod Broadcast
pub mod Outcomes
pub mod Ingest
pub mod Sessions
use rfmesh_workspace.Base.{
  ℕ, List, [], ◌∷◌, ◌++◌, Option, none, some, Bool, true, false, not, ◌==◌, length, if◌then◌else◌,
}
use rfmesh_workspace.Base.Results.{Try, ok, err}
use rfmesh_workspace.Base.Dict.{Key, number_key, Dict, lookup, has_key, insert, erase, keys}

pub record Registries (Hello : Type 0) : Type 0 where
  pub by_node : Dict ℕ ℕ
  pub hello_by_node : Dict ℕ Hello
  pub subs : List ℕ

-- What the code answers a request with besides a result: the HTTP status of the exception.
pub data Refusal : Type 0 where
  invalid not_registered send_failed no_snapshot : Refusal

abbrev pub status_code : Refusal → ℕ
status_code invalid = 422
status_code not_registered = 503
status_code send_failed = 503
status_code no_snapshot = 404

abbrev pub discard : ℕ → List ℕ → List ℕ
discard ws [] = []
discard ws (sub ∷ subs) = if sub == ws then discard ws subs else sub ∷ discard ws subs

abbrev pub is_sub : ℕ → List ℕ → Bool
is_sub ws [] = false
is_sub ws (sub ∷ subs) = if sub == ws then true else is_sub ws subs

-- The loop of `push_to_ui_subscribers`: the subscribers whose send raised.
unfoldable pub dead : (ℕ → Bool) → List ℕ → List ℕ
dead fails [] = []
dead fails (ws ∷ subs) = let rest = dead fails subs in if fails ws then ws ∷ rest else rest

-- `await ws.send_text(...)`: whether it raised, and the registries as the handlers that ran
-- meanwhile left them.
abbrev pub Send : Type 0 → Type 0
Send Hello = ℕ → Registries Hello → Bool × Registries Hello

-- `current is ws`
abbrev pub is_own : Option ℕ → ℕ → Bool
is_own none ws = false
is_own (some current) ws = current == ws

pub data Tried : Type 0 where
  absent delivered failed : Tried

abbrev pub note_tried : Tried → ℕ → List ℕ × List ℕ → List ℕ × List ℕ
note_tried absent node_id lists = lists
note_tried delivered node_id lists = (node_id ∷ lists.0, lists.1)
note_tried failed node_id lists = (lists.0, node_id ∷ lists.1)

module _ {Hello : Type 0} where
  abbrev pub init_registries : Registries Hello
  init_registries = record { by_node = []; hello_by_node = []; subs = [] }

  unfoldable pub register : ℕ → ℕ → Registries Hello → Registries Hello
  register node_id ws r = record r { by_node = insert node_id ws r.by_node }

  -- The entry goes only if it is this socket's.
  unfoldable pub unregister : ℕ → ℕ → Registries Hello → Registries Hello
  unregister node_id ws r =
      if is_own (lookup node_id r.by_node) ws
      then record r { by_node = erase node_id r.by_node }
      else r

  unfoldable pub get : ℕ → Registries Hello → Option ℕ
  get node_id r = lookup node_id r.by_node

  abbrev pub node_ids : Registries Hello → List ℕ
  node_ids r = keys r.by_node

  unfoldable pub set_hello : ℕ → Hello → Registries Hello → Registries Hello
  set_hello node_id payload r = record r { hello_by_node = insert node_id payload r.hello_by_node }

  abbrev pub get_hello : ℕ → Registries Hello → Option Hello
  get_hello node_id r = lookup node_id r.hello_by_node

  abbrev pub add_sub : ℕ → Registries Hello → Registries Hello
  add_sub ws r = record r { subs = if is_sub ws r.subs then r.subs else r.subs ++ (ws ∷ []) }

  abbrev pub remove_sub : ℕ → Registries Hello → Registries Hello
  remove_sub ws r = record r { subs = discard ws r.subs }

  abbrev pub is_online : ℕ → Registries Hello → Bool
  is_online node_id r = has_key node_id r.by_node

  -- The user interface's socket, with what the other handlers do while it is open.
  abbrev pub ui_socket :
      ℕ → (Registries Hello → Registries Hello) → Registries Hello → Registries Hello
  ui_socket ws meanwhile r = remove_sub ws (meanwhile (add_sub ws r))

  unfoldable pub remove_all : List ℕ → Registries Hello → Registries Hello
  remove_all [] r = r
  remove_all (ws ∷ gone) r = remove_all gone (remove_sub ws r)

  -- One send to each subscriber of the snapshot, then the dead ones leave.
  unfoldable pub push_to_ui_subscribers : (ℕ → Bool) → Registries Hello → Registries Hello
  push_to_ui_subscribers fails r = remove_all (dead fails r.subs) r

  -- `post_command` and `post_clear_fault` behind their validation, with the socket that took the
  -- command.
  unfoldable pub after_command : ℕ → ℕ → Bool × Registries Hello → Try Refusal ℕ × Registries Hello
  after_command node_id ws sent =
      if sent.0 then (err send_failed, unregister node_id ws sent.1) else (ok ws, sent.1)

  unfoldable pub command_to :
      Send Hello → ℕ → Option ℕ → Registries Hello → Try Refusal ℕ × Registries Hello
  command_to send node_id none r = (err not_registered, r)
  command_to send node_id (some ws) r = after_command node_id ws (send ws r)

  abbrev pub send_command : Send Hello → ℕ → Registries Hello → Try Refusal ℕ × Registries Hello
  send_command send node_id r = command_to send node_id (get node_id r) r

  -- A round of `post_command_broadcast`: the node's socket is looked up when its turn comes.
  unfoldable pub after_broadcast : ℕ → ℕ → Bool × Registries Hello → Tried × Registries Hello
  after_broadcast node_id ws sent =
      if sent.0 then (failed, unregister node_id ws sent.1) else (delivered, sent.1)

  unfoldable pub broadcast_to :
      Send Hello → ℕ → Option ℕ → Registries Hello → Tried × Registries Hello
  broadcast_to send node_id none r = (absent, r)
  broadcast_to send node_id (some ws) r = after_broadcast node_id ws (send ws r)

  abbrev pub broadcast_one : Send Hello → ℕ → Registries Hello → Tried × Registries Hello
  broadcast_one send node_id r = broadcast_to send node_id (get node_id r) r

  -- The nodes that took the command, and those whose send raised.
  unfoldable pub broadcast_loop :
      Send Hello → List ℕ → Registries Hello → (List ℕ × List ℕ) × Registries Hello
  broadcast_loop send [] r = (([], []), r)
  broadcast_loop send (node_id ∷ ids) r =
      let one = broadcast_one send node_id r in
      let later = broadcast_loop send ids one.1 in (note_tried one.0 node_id later.0, later.1)

  abbrev pub capabilities_of : Option Hello → Bool → Try Refusal (Bool × Hello)
  capabilities_of none online = err no_snapshot
  capabilities_of (some hello) online = ok (online, hello)

  unfoldable pub get_node_capabilities : ℕ → Registries Hello → Try Refusal (Bool × Hello)
  get_node_capabilities node_id r = capabilities_of (get_hello node_id r) (is_online node_id r)

  unfoldable pub list_node_capabilities : Dict ℕ Hello → Registries Hello → List (ℕ × Bool × Hello)
  list_node_capabilities [] r = []
  list_node_capabilities ((node_id, hello) ∷ snapshots) r =
      (node_id, is_online node_id r, hello) ∷ list_node_capabilities snapshots r
