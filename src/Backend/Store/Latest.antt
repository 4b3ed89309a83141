-- ===== src/Backend/Store/Latest.antt =====
-- What `latest_bearings_per_node`, `latest_peer_bearing` and `list_fixes` return of a store.
use mathlib.Core.Path.{subst, ap₂}
use rfmesh_workspace.Base.{
  ℕ, ◌≤◌, ◌≡◌, sym, ap, ◌∙◌, List, [], ◌∷◌, Option, none, some, true, false, ◌==◌, ==→eq, ==_refl,
  Bool-cases, All, inl, inr, ◌↔◌, arith,
}
use rfmesh_workspace.Base.Dict.{
  number_key, pair_key, Dict, lookup, insert, IsDistinct, insert-IsDistinct,
}
use rfmesh_workspace.Base.Dict.Members.{
  IsAmong, All-IsAmong, IsKeyed, insert-IsKeyed, lookup-IsAmong, IsAmong-lookup,
}
use rfmesh_workspace.Backend.Store.{
  BearingReport, Store, bearing_key, upsert_bearing, list_bearings, is_newer, latest_loop,
  latest_bearings_per_node, latest_peer_bearing,
}
use rfmesh_workspace.Backend.Store.Newest.{
  IsNewest, lookup-latest_loop-IsNewest, peer_loop-IsNewest, is_peer,
}

module _ {A : Type 0} where
  -- Each bearing lies once, under its node and its time.
  unfoldable pub IsWell : Store A → Type 0
  IsWell s = IsDistinct s.bearings × IsKeyed bearing_key s.bearings

  pub upsert_bearing-IsWell :
      (b : BearingReport A) (s : Store A) → IsWell s → IsWell (upsert_bearing b s)
  unfolding IsWell upsert_bearing
  upsert_bearing-IsWell b s h = (
    insert-IsDistinct (bearing_key b) b s.bearings h.0,
    insert-IsKeyed bearing_key b s.bearings h.1,
  )

  latest_loop-IsDistinct :
      (bs : List (BearingReport A)) (latest : Dict ℕ (BearingReport A))
      → IsDistinct latest
      → IsDistinct (latest_loop bs latest)
  unfolding latest_loop
  latest_loop-IsDistinct [] latest h = h
  latest_loop-IsDistinct (b ∷ bs) latest h =
      elim (Bool-cases (is_newer b (lookup b.node_id latest))) [
        | inl newer ↦ rw newer (
            latest_loop-IsDistinct bs (insert b.node_id b latest)
              (insert-IsDistinct b.node_id b latest h))
        | inr older ↦ rw older (latest_loop-IsDistinct bs latest h)
      ]

  latest_loop-IsKeyed :
      (bs : List (BearingReport A)) (latest : Dict ℕ (BearingReport A))
      → IsKeyed (λ b. b.node_id) latest
      → IsKeyed (λ b. b.node_id) (latest_loop bs latest)
  unfolding latest_loop
  latest_loop-IsKeyed [] latest h = h
  latest_loop-IsKeyed (b ∷ bs) latest h = elim (Bool-cases (is_newer b (lookup b.node_id latest))) [
    | inl newer ↦ rw newer (
        latest_loop-IsKeyed bs (insert b.node_id b latest)
          (insert-IsKeyed (λ c. c.node_id) b latest h))
    | inr older ↦ rw older (latest_loop-IsKeyed bs latest h)
  ]

  -- Two bearings of a store with one node and one time are the same.
  one_bearing :
      (s : Store A) (b c : BearingReport A)
      → IsWell s
      → IsAmong b (list_bearings s)
      → IsAmong c (list_bearings s)
      → c.node_id ≡ b.node_id
      → c.t_unix_ns ≡ b.t_unix_ns
      → c ≡ b
  unfolding IsWell list_bearings
  one_bearing s b c well hb hc nodes times =
      let at_c = IsAmong-lookup bearing_key c s.bearings well.0 well.1 hc in
      let at_b = IsAmong-lookup bearing_key b s.bearings well.0 well.1 hb in
      let one : some c ≡ some b =
        sym at_c ∙ ap₂ (λ n t. lookup (n, t) s.bearings) nodes times ∙ at_b in
      cc

  unfoldable pub IsNoNewer : BearingReport A → BearingReport A → Type 0
  IsNoNewer b c = c.node_id ≡ b.node_id → c.t_unix_ns ≤ b.t_unix_ns

  -- The newest of a node that is stored is what the loop keeps for it.
  lookup-latest :
      (s : Store A) (b : BearingReport A)
      → IsWell s
      → IsAmong b (list_bearings s)
      → All (IsNoNewer b) (list_bearings s)
      → (found : Option (BearingReport A))
      → IsNewest (λ c. c.node_id == b.node_id) (list_bearings s) found
      → found ≡ some b
  unfolding IsNewest IsNoNewer
  lookup-latest s b well among above none h =
      let unfit = All-IsAmong _ (list_bearings s) b h among in
      let clash : true ≡ false = sym (==_refl b.node_id) ∙ unfit in absurd (cc)
  lookup-latest s b well among above (some c) (here, fit, newest) =
      let nodes = ==→eq c.node_id b.node_id fit in
      let up = All-IsAmong _ (list_bearings s) c above here nodes in
      let down = All-IsAmong _ (list_bearings s) b newest among (==_refl b.node_id) in
      ap some (one_bearing s b c well among here nodes (omega arith))

  latest_IsAmong :
      (s : Store A) (b : BearingReport A)
      → IsWell s
      → IsAmong b (list_bearings s)
      → All (IsNoNewer b) (list_bearings s)
      → IsAmong b (latest_bearings_per_node s)
  unfolding latest_bearings_per_node
  latest_IsAmong s b well among above =
      lookup-IsAmong b.node_id b (latest_loop (list_bearings s) []) (
        lookup-latest s b well among above _
          (lookup-latest_loop-IsNewest b.node_id (list_bearings s)))

  weaken :
      (b : BearingReport A) (cs : List (BearingReport A))
      → All (λ c. (c.node_id == b.node_id) ≡ true → c.t_unix_ns ≤ b.t_unix_ns) cs
      → All (IsNoNewer b) cs
  unfolding IsNoNewer
  weaken b [] h = tt
  weaken b (c ∷ cs) h =
      ((λ nodes. h.0 (ap (λ n. n == b.node_id) nodes ∙ ==_refl b.node_id)), weaken b cs h.1)

  IsAmong-latest :
      (s : Store A) (b : BearingReport A) (found : Option (BearingReport A))
      → IsNewest (λ c. c.node_id == b.node_id) (list_bearings s) found
      → found ≡ some b
      → IsAmong b (list_bearings s) × All (IsNoNewer b) (list_bearings s)
  unfolding IsNewest
  IsAmong-latest s b none h e = absurd (cc)
  IsAmong-latest s b (some c) (here, fit, above) e =
      let found : c ≡ b = cc in
      (
        subst (λ x. IsAmong x (list_bearings s)) found here,
        weaken b (list_bearings s) (
            subst
              (λ x.
                All (λ c. (c.node_id == b.node_id) ≡ true → c.t_unix_ns ≤ x.t_unix_ns)
                  (list_bearings s))
              found above),
      )

  -- In a store where each bearing lies once, under its node and its time, the bearings that
  -- `latest_bearings_per_node` returns are exactly those stored bearings that no stored bearing of
  -- the same node is newer than.
  pub latest_bearings_per_node-IsNoNewer :
      (s : Store A) (b : BearingReport A)
      → IsWell s
      → IsAmong b (latest_bearings_per_node s)
        ↔ (IsAmong b (list_bearings s) × All (IsNoNewer b) (list_bearings s))
  unfolding latest_bearings_per_node
  latest_bearings_per_node-IsNoNewer s b well =
      let latest = latest_loop (list_bearings s) [] in
      (
        λ h.
            IsAmong-latest s b (lookup b.node_id latest)
              (lookup-latest_loop-IsNewest b.node_id (list_bearings s))
              (IsAmong-lookup (λ c. c.node_id) b latest
                (latest_loop-IsDistinct (list_bearings s) [] tt)
                (latest_loop-IsKeyed (list_bearings s) [] tt) h),
        λ h. latest_IsAmong s b well h.0 h.1,
      )

  -- What `latest_peer_bearing` returns for a node is a stored bearing of that node with a peer-link
  -- prior, and no stored bearing of the node with such a prior is newer; it returns None only if
  -- none is stored.
  pub latest_peer_bearing-IsNewest :
      (n : ℕ) (s : Store A) → IsNewest (is_peer n) (list_bearings s) (latest_peer_bearing n s)
  unfolding latest_peer_bearing
  latest_peer_bearing-IsNewest n s = peer_loop-IsNewest n (list_bearings s)
