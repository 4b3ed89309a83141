-- ===== src/Node/Fusion/Rounds.antt =====
-- What a round of the fusion loop hands to the fuser, and what the windows of the loop collect.
use rfmesh_workspace.Base.{
  ℕ, ◌+◌, ◌≤◌, ◌≡◌, refl, ap, ◌∙◌, List, [], ◌∷◌, ◌++◌, append_assoc, some, Bool, true, false, ltb,
  ◌==◌, ==_refl, length, Bool-cases, inl, inr, if◌then◌else◌, arith,
}
use rfmesh_workspace.Base.Dict.{number_key, Dict, lookup, insert, lookup-insert}
use rfmesh_workspace.Node.Fusion.{
  Message, bearing, status, node_id, Fused, FusionConfig, FusionService, take_late, collect_window,
  update_last_seen, filter_live_bearings, publish_fused, fuse_round,
}

module _ {Bearing : Type 0} where
  abbrev pub bearings_of : List (Message Bearing) → List Bearing
  bearings_of [] = []
  bearings_of (bearing n b ∷ batch) = b ∷ bearings_of batch
  bearings_of (status n ∷ batch) = bearings_of batch

  update_last_seen-keeps :
      (now n : ℕ) (batch : List (Message Bearing)) (seen : Dict ℕ ℕ)
      → lookup n seen ≡ some now
      → lookup n (update_last_seen now batch seen) ≡ some now
  unfolding update_last_seen
  update_last_seen-keeps now n [] seen h = h
  update_last_seen-keeps now n (message ∷ batch) seen h =
      update_last_seen-keeps now n batch (insert (node_id message) now seen)
        (lookup-insert n (node_id message) now seen ∙ again (node_id message == n))
    where
      again : (b : Bool) → (if b then some now else lookup n seen) ≡ some now
      again true = refl
      again false = h

  -- Every node of the batch was last seen at the time of the update.
  AllSeen : ℕ → Dict ℕ ℕ → List (Message Bearing) → Type 0
  AllSeen now seen [] = Unit
  AllSeen now seen (message ∷ batch) =
      (lookup (node_id message) seen ≡ some now) × AllSeen now seen batch

  update_last_seen-AllSeen :
      (now : ℕ) (batch : List (Message Bearing)) (seen : Dict ℕ ℕ)
      → AllSeen now (update_last_seen now batch seen) batch
  unfolding update_last_seen AllSeen
  update_last_seen-AllSeen now [] seen = tt
  update_last_seen-AllSeen now (message ∷ batch) seen = (
    update_last_seen-keeps now (node_id message) batch (insert (node_id message) now seen) (
        lookup-insert (node_id message) (node_id message) now seen
        ∙ rw (==_refl (node_id message)) refl),
    update_last_seen-AllSeen now batch (insert (node_id message) now seen),
  )

  filter_live_bearings-AllSeen :
      (now later stale_after : ℕ) (seen : Dict ℕ ℕ) (batch : List (Message Bearing))
      → later ≤ now + stale_after
      → AllSeen now seen batch
      → filter_live_bearings later stale_after seen batch ≡ bearings_of batch
  unfolding filter_live_bearings AllSeen
  filter_live_bearings-AllSeen now later stale_after seen [] soon h = refl
  filter_live_bearings-AllSeen now later stale_after seen (status n ∷ batch) soon h =
      filter_live_bearings-AllSeen now later stale_after seen batch soon h.1
  filter_live_bearings-AllSeen now later stale_after seen (bearing n b ∷ batch) soon h =
      let fresh : ltb (now + stale_after) later ≡ false = ground arith in
      rw (h.0, fresh)
        (ap (λ rest. b ∷ rest)
          (filter_live_bearings-AllSeen now later stale_after seen batch soon h.1))

  -- If the clock goes on by no more than the staleness bound within a round, the round hands to the
  -- fuser every bearing of its batch, from however long silent a node, as soon as they are as many as
  -- are needed for a fix; so the map of last sightings never keeps a bearing back.
  pub fuse_round_keeps_all :
      {Fix : Type 0} (config : FusionConfig) (fuse : List Bearing → Fused Fix) (cot_fails : Bool)
      (now later : ℕ) (batch : List (Message Bearing)) (s : FusionService Fix)
      → later ≤ now + config.node_stale_after
      → fuse_round config fuse cot_fails now later batch s ≡ (
          if ltb (length (bearings_of batch)) config.min_bearings_for_fix
          then record s { last_seen = update_last_seen now batch s.last_seen }
          else publish_fused cot_fails
              (fuse (bearings_of batch))
              (record s { last_seen = update_last_seen now batch s.last_seen }))
  unfolding fuse_round
  fuse_round_keeps_all config fuse cot_fails now later batch s soon =
      let seen = update_last_seen now batch s.last_seen in
      rw
        (filter_live_bearings-AllSeen now later config.node_stale_after seen batch soon
          (update_last_seen-AllSeen now batch s.last_seen))
        refl

  abbrev pub messages : List (ℕ × Message Bearing) → List (Message Bearing)
  messages [] = []
  messages ((at, message) ∷ later) = message ∷ messages later

  take_late-messages :
      (deadline : ℕ) (later : List (ℕ × Message Bearing))
      → (take_late deadline later).0 ++ messages (take_late deadline later).1 ≡ messages later
  unfolding take_late
  take_late-messages deadline [] = refl
  take_late-messages deadline ((at, message) ∷ later) = elim (Bool-cases (ltb at deadline)) [
    | inl early ↦ rw early (ap (λ rest. message ∷ rest) (take_late-messages deadline later))
    | inr late ↦ rw late refl
  ]

  -- One window after another, by their deadlines.
  unfoldable pub collect_all :
      List ℕ → List (ℕ × Message Bearing) → List (Message Bearing) × List (ℕ × Message Bearing)
  collect_all [] later = ([], later)
  collect_all (deadline ∷ deadlines) later =
      let batch = collect_window deadline [] later in
      let rest = collect_all deadlines batch.1 in (batch.0 ++ rest.0, rest.1)

  -- The windows of the loop, taken one after another, lose no message and keep the order of arrival:
  -- their batches and what is left in the inbox make up what arrived.
  pub collect_all-messages :
      (deadlines : List ℕ) (later : List (ℕ × Message Bearing))
      → (collect_all deadlines later).0 ++ messages (collect_all deadlines later).1 ≡ messages later
  unfolding collect_all collect_window
  collect_all-messages [] later = refl
  collect_all-messages (deadline ∷ deadlines) later =
      let late = take_late deadline later in
      append_assoc late.0 _ _
      ∙ ap (λ rest. late.0 ++ rest) (collect_all-messages deadlines late.1)
      ∙ take_late-messages deadline later
