-- ===== src/Node/Fusion.antt =====
-- packages/rfmesh-node/src/rfmesh_node/fusion_service.py: the messages of a window, the bookkeeping of when
-- a node was last seen, and one round of the loop that fuses. The fuser and the publishers are given.
-- Times count in ticks and a node id is a number.
pub mod Rounds
use rfmesh_workspace.Base.{
  ℕ, ◌+◌, List, [], ◌∷◌, ◌++◌, Option, none, some, Bool, true, false, ltb, leb, length,
  if◌then◌else◌,
}
use rfmesh_workspace.Base.Dict.{Key, number_key, Dict, lookup, insert}

-- A message is a bearing or a status; the service reads its node.
pub data Message (Bearing : Type 0) : Type 0 where
  bearing : ℕ → Bearing → Message Bearing
  status : ℕ → Message Bearing

abbrev pub node_id : {Bearing : Type 0} → Message Bearing → ℕ
node_id (bearing n b) = n
node_id (status n) = n

-- What the fuser does with its bearings: it raises, it cannot solve, or it gives a fix.
pub data Fused (Fix : Type 0) : Type 0 where
  raises unsolved : Fused Fix
  solved : Fix → Fused Fix

pub record FusionConfig : Type 0 where
  pub batch_window : ℕ
  pub node_stale_after : ℕ
  pub min_bearings_for_fix : ℕ

-- The service's state: the map of last sightings, and what each publisher was given. A publisher may be
-- missing.
pub record FusionService (Fix : Type 0) : Type 0 where
  pub last_seen : Dict ℕ ℕ
  pub cot : Option (List Fix)
  pub dashboard : Option (List Fix)

-- `last is None or last < now - node_stale_after`
abbrev pub is_stale : ℕ → ℕ → Option ℕ → Bool
is_stale now stale_after none = true
is_stale now stale_after (some last) = ltb (last + stale_after) now

module _ {Bearing : Type 0} where
  -- The part of `_collect_window` that waits: a message that arrives before the deadline is taken, and
  -- the rest stays in the inbox.
  unfoldable pub take_late :
      ℕ → List (ℕ × Message Bearing) → List (Message Bearing) × List (ℕ × Message Bearing)
  take_late deadline [] = ([], [])
  take_late deadline ((at, message) ∷ later) =
      let rest = take_late deadline later in
      if ltb at deadline then (message ∷ rest.0, rest.1) else ([], (at, message) ∷ later)

  unfoldable pub collect_window :
      ℕ
      → List (Message Bearing)
      → List (ℕ × Message Bearing)
      → List (Message Bearing) × List (ℕ × Message Bearing)
  collect_window deadline queued later =
      let late = take_late deadline later in (queued ++ late.0, late.1)

  unfoldable pub update_last_seen : ℕ → List (Message Bearing) → Dict ℕ ℕ → Dict ℕ ℕ
  update_last_seen now [] seen = seen
  update_last_seen now (message ∷ batch) seen =
      update_last_seen now batch (insert (node_id message) now seen)

  unfoldable pub filter_live_bearings : ℕ → ℕ → Dict ℕ ℕ → List (Message Bearing) → List Bearing
  filter_live_bearings now stale_after seen [] = []
  filter_live_bearings now stale_after seen (status n ∷ batch) =
      filter_live_bearings now stale_after seen batch
  filter_live_bearings now stale_after seen (bearing n b ∷ batch) =
      let kept = filter_live_bearings now stale_after seen batch in
      if is_stale now stale_after (lookup n seen) then kept else b ∷ kept

abbrev pub append_fix : {Fix : Type 0} → Fix → Option (List Fix) → Option (List Fix)
append_fix f none = none
append_fix f (some published) = some (published ++ (f ∷ []))

module _ {Fix : Type 0} where
  -- A CoT publisher that raises has not published; the dashboard is served all the same.
  unfoldable pub publish_fix : Bool → Fix → FusionService Fix → FusionService Fix
  publish_fix cot_fails f s = record s {
    cot = if cot_fails then s.cot else append_fix f s.cot;
    dashboard = append_fix f s.dashboard;
  }

  abbrev pub publish_fused : Bool → Fused Fix → FusionService Fix → FusionService Fix
  publish_fused cot_fails raises s = s
  publish_fused cot_fails unsolved s = s
  publish_fused cot_fails (solved f) s = publish_fix cot_fails f s

module _ {Bearing Fix : Type 0} where
  -- A round of `_fuse_loop` on its batch: the clock is read at the update and again at the filter.
  unfoldable pub fuse_round :
      FusionConfig
      → (List Bearing → Fused Fix)
      → Bool
      → ℕ
      → ℕ
      → List (Message Bearing)
      → FusionService Fix
      → FusionService Fix
  fuse_round config fuse cot_fails now later batch s =
      let seen = update_last_seen now batch s.last_seen in
      let bearings = filter_live_bearings later config.node_stale_after seen batch in
      let noted : FusionService Fix = record s { last_seen = seen } in
      if ltb (length bearings) config.min_bearings_for_fix
      then noted
      else publish_fused cot_fails (fuse bearings) noted
