-- ===== src/Backend/Store.antt =====
-- deployment/backend/src/both3_poc/store.py: the server's store of fixes, bearings and red nodes. Ids
-- are numbers, since the code only compares them; what a message says besides the fields the store reads
-- is of any type, and so is a frequency.
pub mod Latest
pub mod Sorting
pub mod Newest
pub mod Calls
pub mod Refinement
use rfmesh_workspace.Base.{
  ℕ, List, [], ◌∷◌, ◌++◌, Option, none, some, Bool, true, false, ◌&&◌, leb, ltb, ◌==◌, length,
  if◌then◌else◌,
}
use rfmesh_workspace.Base.Dict.{
  Key, number_key, pair_key, Dict, lookup, has_key, insert, erase, values,
}

pub data BearingPriorKind : Type 0 where
  flat peer_link : BearingPriorKind

pub record FixEvent (A : Type 0) : Type 0 where
  pub fix_id : ℕ
  pub t_unix_ns : ℕ
  pub rest : A

pub record BearingReport (A : Type 0) : Type 0 where
  pub node_id : ℕ
  pub t_unix_ns : ℕ
  pub prior_kind : BearingPriorKind
  pub rest : A

-- A red node, with the text of the id that the request supplies, or none if it supplies no id or one that
-- Python takes for false, as 0 or an empty text.
pub record Red (A : Type 0) : Type 0 where
  pub id : Option ℕ
  pub rest : A

pub record Store (A : Type 0) : Type 0 where
  pub fixes : Dict ℕ (FixEvent A)
  pub bearings : Dict (ℕ × ℕ) (BearingReport A)
  pub fix_freq : Dict ℕ (Option A)
  pub seeded_fix_ids : List ℕ
  pub reds : Dict ℕ (Red A)

abbrev pub contains : ℕ → List ℕ → Bool
contains n [] = false
contains n (m ∷ ms) = if m == n then true else contains n ms

-- `add` of a set, kept without repetition.
abbrev pub add : ℕ → List ℕ → List ℕ
add n ms = if contains n ms then ms else ms ++ (n ∷ [])

abbrev pub bearing_key : {A : Type 0} → BearingReport A → ℕ × ℕ
bearing_key b = (b.node_id, b.t_unix_ns)

abbrev pub is_peer_link : BearingPriorKind → Bool
is_peer_link flat = false
is_peer_link peer_link = true

module _ {A : Type 0} where
  abbrev pub make_store : Store A
  make_store = record { fixes = []; bearings = []; fix_freq = []; seeded_fix_ids = []; reds = [] }

  unfoldable pub upsert_fix : FixEvent A → Bool → Option A → Store A → Store A
  upsert_fix fix seeded center_freq_hz s =
      let kept : Store A = record s {
        fixes = insert fix.fix_id fix s.fixes;
        fix_freq = insert fix.fix_id center_freq_hz s.fix_freq;
      } in
      if seeded then record kept { seeded_fix_ids = add fix.fix_id s.seeded_fix_ids } else kept

  abbrev pub joined : Option (Option A) → Option A
  joined none = none
  joined (some entry) = entry

  -- A missing entry and an entry without a frequency are both None.
  unfoldable pub freq_for : ℕ → Store A → Option A
  freq_for fix_id s = joined (lookup fix_id s.fix_freq)

  unfoldable pub get_fix : ℕ → Store A → Option (FixEvent A)
  get_fix fix_id s = lookup fix_id s.fixes

  -- `sorted` with `reverse=True`: falling in time, and what is equally old keeps its order.
  unfoldable pub place : FixEvent A → List (FixEvent A) → List (FixEvent A)
  place f [] = f ∷ []
  place f (g ∷ gs) =
      let behind = place f gs in if leb g.t_unix_ns f.t_unix_ns then f ∷ (g ∷ gs) else g ∷ behind

  unfoldable pub sorted : List (FixEvent A) → List (FixEvent A)
  sorted [] = []
  sorted (f ∷ fs) = place f (sorted fs)

  unfoldable pub list_fixes : Store A → List (FixEvent A)
  list_fixes s = sorted (values s.fixes)

  abbrev pub is_seeded : ℕ → Store A → Bool
  is_seeded fix_id s = contains fix_id s.seeded_fix_ids

  unfoldable pub upsert_bearing : BearingReport A → Store A → Store A
  upsert_bearing b s = record s { bearings = insert (bearing_key b) b s.bearings }

  unfoldable pub list_bearings : Store A → List (BearingReport A)
  list_bearings s = values s.bearings

  -- `cur is None or b.t_unix_ns > cur.t_unix_ns`
  abbrev pub is_newer : BearingReport A → Option (BearingReport A) → Bool
  is_newer b none = true
  is_newer b (some cur) = ltb cur.t_unix_ns b.t_unix_ns

  -- The loop of `latest_bearings_per_node` over the bearings that are left.
  unfoldable pub latest_loop :
      List (BearingReport A) → Dict ℕ (BearingReport A) → Dict ℕ (BearingReport A)
  latest_loop [] latest = latest
  latest_loop (b ∷ bs) latest =
      let kept = latest_loop bs latest in
      let replaced = latest_loop bs (insert b.node_id b latest) in
      if is_newer b (lookup b.node_id latest) then replaced else kept

  unfoldable pub latest_bearings_per_node : Store A → List (BearingReport A)
  latest_bearings_per_node s = values (latest_loop (list_bearings s) [])

  -- The loop of `latest_peer_bearing`, with its two `continue`.
  unfoldable pub peer_loop :
      ℕ → List (BearingReport A) → Option (BearingReport A) → Option (BearingReport A)
  peer_loop node_id [] latest = latest
  peer_loop node_id (b ∷ bs) latest =
      let skipped = peer_loop node_id bs latest in
      let taken = peer_loop node_id bs (some b) in
      if b.node_id == node_id && is_peer_link b.prior_kind && is_newer b latest
      then taken
      else skipped

  unfoldable pub latest_peer_bearing : ℕ → Store A → Option (BearingReport A)
  latest_peer_bearing node_id s = peer_loop node_id (list_bearings s) none

  unfoldable pub counts : Store A → ℕ × ℕ
  counts s = (length s.fixes, length s.bearings)

  -- The id that `uuid4` makes is given. It is written into the red node.
  unfoldable pub add_red : ℕ → Red A → Store A → ℕ × Store A
  add_red generated red s =
      let red_id : ℕ = elim red.id [ none ↦ generated | some supplied ↦ supplied ] in
      (red_id, record s { reds = insert red_id (record red { id = some red_id }) s.reds })

  unfoldable pub list_reds : Store A → List (Red A)
  list_reds s = values s.reds

  unfoldable pub delete_red : ℕ → Store A → Bool × Store A
  delete_red red_id s = (has_key red_id s.reds, record s { reds = erase red_id s.reds })

  unfoldable pub clear_reds : Store A → Store A
  clear_reds s = record s { reds = [] }
