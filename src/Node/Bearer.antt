-- ===== src/Node/Bearer.antt =====
-- packages/rfmesh-node/src/rfmesh_node/bearer/both.py: `BothBearer`, Wi-Fi with LoRa as a fallback. Time
-- counts in ticks, and a node id is a number, since the code only compares it. What the two bearers
-- receive, and whether a LoRa send is implemented, is given.
pub mod Dedup
use rfmesh_workspace.Base.{
  ℕ, ◌+◌, List, [], ◌∷◌, ◌++◌, Option, none, some, Bool, true, false, ◌&&◌, ◌||◌, leb, ◌==◌,
  if◌then◌else◌,
}

pub data Kind : Type 0 where
  bearing status : Kind

-- What the bearer reads of a message.
pub record Message : Type 0 where
  pub node_id : ℕ
  pub t_unix_ns : ℕ
  pub kind : Kind

abbrev pub same_kind : Kind → Kind → Bool
same_kind bearing bearing = true
same_kind status status = true
same_kind _ _ = false

-- Equality of the keys `(node_id, t_unix_ns, kind)`; the model keeps the message for its key.
unfoldable pub same_key : Message → Message → Bool
same_key a b = a.node_id == b.node_id && (a.t_unix_ns == b.t_unix_ns && same_kind a.kind b.kind)

-- `_seen` in the order of insertion, and the bearers' use.
pub record BothBearer : Type 0 where
  pub dedup_window : ℕ
  pub seen : List (Message × ℕ)
  pub lora_available : Bool
  pub wifi_sent : List Message
  pub lora_sent : List Message

unfoldable pub make_bearer : ℕ → Option BothBearer
make_bearer dedup_window =
    if dedup_window == 0
    then none
    else some (record {
      dedup_window = dedup_window;
      seen = [];
      lora_available = true;
      wifi_sent = [];
      lora_sent = [];
    })

-- `send_bearing` and `send_status` with `_try_lora_send`, when the send over Wi-Fi raises nothing.
unfoldable pub try_lora_send : Bool → Message → BothBearer → BothBearer
try_lora_send implemented m s =
    if s.lora_available
    then (if implemented
        then record s { lora_sent = s.lora_sent ++ (m ∷ []) }
        else record s { lora_available = false })
    else s

unfoldable pub send : Bool → Message → BothBearer → BothBearer
send implemented m s =
    try_lora_send implemented m (record s { wifi_sent = s.wifi_sent ++ (m ∷ []) })

-- `_evict_old`: an entry is old if it lies more than the window before now.
unfoldable pub evict_old : ℕ → ℕ → List (Message × ℕ) → List (Message × ℕ)
evict_old window now [] = []
evict_old window now ((m, t) ∷ rest) =
    let less = evict_old window now rest in if leb now (t + window) then (m, t) ∷ rest else less

-- `key in self._seen`
unfoldable pub has_seen : Message → List (Message × ℕ) → Bool
has_seen m [] = false
has_seen m ((k, t) ∷ rest) = same_key m k || has_seen m rest

-- The loop of `receive`: the messages that come out, and what has been seen.
unfoldable pub admit : ℕ → List Message → List (Message × ℕ) → List Message × List (Message × ℕ)
admit now [] seen = ([], seen)
admit now (m ∷ messages) seen =
    let skipped = admit now messages seen in
    let taken = admit now messages (seen ++ ((m, now) ∷ [])) in
    if has_seen m seen then skipped else (m ∷ taken.0, taken.1)

unfoldable pub receive : ℕ → List Message → List Message → BothBearer → List Message × BothBearer
receive now wifi lora s =
    let got = admit now (wifi ++ lora) (evict_old s.dedup_window now s.seen) in
    (got.0, record s { seen = got.1 })

abbrev pub close : BothBearer → BothBearer
close s = record s { seen = [] }
