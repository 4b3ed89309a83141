-- ===== src/Node/Dashboard.antt =====
-- packages/rfmesh-node/src/rfmesh_node/dashboard_pubsub.py: `DashboardPubSub`. A subscriber is a number;
-- the same one may be registered twice. `raises i` says whether the `send` to the i-th of the snapshot
-- raises or takes too long.
pub mod Fanout
use rfmesh_workspace.Base.{
  ℕ, suc, List, [], ◌∷◌, ◌++◌, Option, none, some, Bool, true, false, ◌==◌, if◌then◌else◌, length,
}

unfoldable pub add_subscriber : ℕ → List ℕ → List ℕ
add_subscriber sub subs = subs ++ (sub ∷ [])

-- `list.remove`, with the `ValueError` of a missing element suppressed.
unfoldable pub remove_subscriber : ℕ → List ℕ → List ℕ
remove_subscriber sub [] = []
remove_subscriber sub (x ∷ subs) =
    let rest = remove_subscriber sub subs in if x == sub then subs else x ∷ rest

abbrev pub subscriber_count : List ℕ → ℕ
subscriber_count subs = length subs

-- `_send_one`, and what `gather` collects from the snapshot.
abbrev pub send_one : Bool → ℕ → Option ℕ
send_one raised sub = if raised then some sub else none

abbrev pub keep_some : Option ℕ → List ℕ → List ℕ
keep_some none subs = subs
keep_some (some sub) subs = sub ∷ subs

unfoldable pub to_drop : (ℕ → Bool) → List ℕ → List ℕ
to_drop raises [] = []
to_drop raises (sub ∷ subs) =
    keep_some (send_one (raises 0) sub) (to_drop (λ i. raises (suc i)) subs)

unfoldable pub drop_all : List ℕ → List ℕ → List ℕ
drop_all [] subs = subs
drop_all (sub ∷ dropped) subs = drop_all dropped (remove_subscriber sub subs)

-- `_fanout`: `during` is what other tasks do to the subscribers while the sends run.
unfoldable pub fanout : (ℕ → Bool) → (List ℕ → List ℕ) → List ℕ → List ℕ
fanout raises during subs = drop_all (to_drop raises subs) (during subs)
