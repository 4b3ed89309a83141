-- ===== src/Node/Channel.antt =====
-- packages/rfmesh-node/src/rfmesh_node/command_channel.py: the connection that a node keeps to the backend,
-- with its reconnects. The connection, the parser of commands and the random numbers are given. A float
-- of `random.random()` is a fraction of a whole number, its products are exact, and a delay counts in
-- fortieths of that fraction's unit of a second. Only one rounding shows in the model: a power of two from
-- the 1024th on is too large for a float, where the product raises OverflowError.
pub mod Backoff
use rfmesh_workspace.Base.{
  ℕ, zero, suc, ◌+◌, ◌*◌, ◌^◌, List, [], ◌∷◌, ◌++◌, Option, none, some, Bool, true, false, not,
  ◌&&◌, leb, ltb, if◌then◌else◌,
}

-- What a turn of the receiving loop meets: the event to stop, or what `ws.receive()` gives in half a
-- second.
pub data Turn (Frame : Type 0) : Type 0 where
  stopping timeout closing other : Turn Frame
  text : Frame → Turn Frame

-- A round of `run`: whether the connection is made and what it brings, whether the event to stop is
-- set behind it, the random number for the delay, and whether the event is set while the channel sleeps.
pub record Round (Frame : Type 0) : Type 0 where
  pub connects : Bool
  pub turns : List (Turn Frame)
  pub stops : Bool
  pub random : ℕ
  pub stops_asleep : Bool

-- How far a run has come: still in its loop with the count of attempts, returned, or ended by an
-- exception.
pub data Progress : Type 0 where
  running : ℕ → Progress
  returned raised : Progress

module _ {Frame Command : Type 0} (parse_command : Frame → Option Command) where
  -- A bad frame is dropped; what the handler raises is dropped too.
  abbrev pub dispatch : Frame → List Command
  dispatch frame = elim (parse_command frame) [ none ↦ [] | some command ↦ command ∷ [] ]

  -- The commands that the handler is called with. The list ends where `receive` raises.
  unfoldable pub serve : List (Turn Frame) → List Command
  serve [] = []
  serve (stopping ∷ turns) = []
  serve (closing ∷ turns) = []
  serve (timeout ∷ turns) = serve turns
  serve (other ∷ turns) = serve turns
  serve (text frame ∷ turns) = dispatch frame ++ serve turns

-- `send_response`: sent, and whether the send raised.
abbrev pub send_response : Bool → Bool → Bool
send_response connected fails = connected && not fails

-- `min(_RECONNECT_BASE_S * 2 ** attempt, _RECONNECT_MAX_S)` in seconds
unfoldable pub base_delay : ℕ → ℕ
base_delay attempt = if leb (2 ^ attempt) 30 then 2 ^ attempt else 30

-- A float holds powers of two below the 1024th.
abbrev pub max_exponent : ℕ
max_exponent = 1024

-- The random number is `random / unit`, and a second is `40 * unit`.
unfoldable pub delay_of : ℕ → ℕ → ℕ → ℕ
delay_of unit random base =
    let delay = 10 * base * (3 * unit + 2 * random) in
    if leb (4 * unit) delay then delay else 4 * unit

-- The delay and the next count of attempts, or none for OverflowError.
unfoldable pub reconnect_delay : ℕ → ℕ → ℕ → Option (ℕ × ℕ)
reconnect_delay unit random attempt =
    if ltb attempt max_exponent
    then some (delay_of unit random (base_delay attempt), attempt + 1)
    else none

abbrev pub after_delay : Bool → Option (ℕ × ℕ) → Progress
after_delay stops_asleep none = raised
after_delay true (some slept) = returned
after_delay false (some slept) = running slept.1

module _ {Frame : Type 0} where
  unfoldable pub run_round : ℕ → Round Frame → ℕ → Progress
  run_round unit round attempt =
      let attempt = if round.connects then 0 else attempt in
      if round.stops
      then returned
      else after_delay round.stops_asleep (reconnect_delay unit round.random attempt)

  -- `run`, from a count of attempts on.
  unfoldable pub run : ℕ → List (Round Frame) → Progress → Progress
  run unit rounds returned = returned
  run unit rounds raised = raised
  run unit [] (running attempt) = running attempt
  run unit (round ∷ rounds) (running attempt) = run unit rounds (run_round unit round attempt)
