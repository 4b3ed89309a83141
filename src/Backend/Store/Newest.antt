-- ===== src/Backend/Store/Newest.antt =====
-- What the two loops of the store that look for the newest bearing keep: for each node, the newest
-- of the bearings seen so far.
use rfmesh_workspace.Base.{
  ℕ, ◌≤◌, ◌≡◌, refl, sym, ap, ◌∙◌, List, [], ◌∷◌, Option, none, some, Bool, true, false, ◌&&◌, ◌==◌,
  ==→eq, Bool-cases, All, inl, inr, ◌⊎◌, arith, if◌then◌else◌,
}
use mathlib.Core.Path.{subst}
use rfmesh_workspace.Base.Dict.{number_key, Dict, lookup, insert, lookup-insert}
use rfmesh_workspace.Base.Dict.Members.{IsAmong}
use rfmesh_workspace.Backend.Store.{BearingReport, is_newer, latest_loop, peer_loop, is_peer_link}

second_false : (a b : Bool) → a ≡ true → (a && b) ≡ false → b ≡ false
second_false true b h g = g
second_false false b h g = absurd (cc)

module _ {A : Type 0} where
  -- The newest of the bearings that pass a test, the one at hand included.
  newest :
      (BearingReport A → Bool)
      → List (BearingReport A)
      → Option (BearingReport A)
      → Option (BearingReport A)
  newest fits [] cur = cur
  newest fits (b ∷ bs) cur =
      if fits b && is_newer b cur then newest fits bs (some b) else newest fits bs cur

  -- No bearing of the list that passes the test is newer than the result, and without a result none
  -- passes.
  unfoldable pub IsNewest :
      (BearingReport A → Bool) → List (BearingReport A) → Option (BearingReport A) → Type 0
  IsNewest fits bs none = All (λ c. fits c ≡ false) bs
  IsNewest fits bs (some b) =
      IsAmong b bs × (fits b ≡ true) × All (λ c. fits c ≡ true → c.t_unix_ns ≤ b.t_unix_ns) bs

  IsNoOlder : Option (BearingReport A) → Option (BearingReport A) → Type 0
  IsNoOlder none later = Unit
  IsNoOlder (some b) none = ⊥
  IsNoOlder (some b) (some later) = b.t_unix_ns ≤ later.t_unix_ns

  IsNoOlder-trans :
      (a b c : Option (BearingReport A)) → IsNoOlder a b → IsNoOlder b c → IsNoOlder a c
  unfolding IsNoOlder
  IsNoOlder-trans none b c h g = tt
  IsNoOlder-trans (some a) none c h g = elim h [ ]
  IsNoOlder-trans (some a) (some b) none h g = elim g [ ]
  IsNoOlder-trans (some a) (some b) (some c) h g = omega arith

  is_newer-IsNoOlder :
      (b : BearingReport A) (cur : Option (BearingReport A))
      → is_newer b cur ≡ true
      → IsNoOlder cur (some b)
  unfolding IsNoOlder
  is_newer-IsNoOlder b none h = tt
  is_newer-IsNoOlder b (some cur) h = ground arith

  not_newer-IsNoOlder :
      (b : BearingReport A) (cur : Option (BearingReport A))
      → is_newer b cur ≡ false
      → IsNoOlder (some b) cur
  unfolding IsNoOlder
  not_newer-IsNoOlder b none h = absurd (cc)
  not_newer-IsNoOlder b (some cur) h = ground arith

  IsNoOlder-refl : (o : Option (BearingReport A)) → IsNoOlder o o
  unfolding IsNoOlder
  IsNoOlder-refl none = tt
  IsNoOlder-refl (some b) = omega arith

  newest-IsNoOlder :
      (fits : BearingReport A → Bool) (bs : List (BearingReport A)) (cur : Option (BearingReport A))
      → IsNoOlder cur (newest fits bs cur)
  unfolding newest
  newest-IsNoOlder fits [] cur = IsNoOlder-refl cur
  newest-IsNoOlder fits (b ∷ bs) cur = elim (Bool-cases (fits b)) [
    | inl fit ↦ rw fit (elim (Bool-cases (is_newer b cur)) [
      | inl newer ↦ rw newer (
          IsNoOlder-trans cur (some b) _ (is_newer-IsNoOlder b cur newer)
            (newest-IsNoOlder fits bs (some b)))
      | inr older ↦ rw older (newest-IsNoOlder fits bs cur)
    ])
    | inr unfit ↦ rw unfit (newest-IsNoOlder fits bs cur)
  ]

  newest-taken :
      (fits : BearingReport A → Bool) (b : BearingReport A) (bs : List (BearingReport A))
      (cur : Option (BearingReport A))
      → (fits b && is_newer b cur) ≡ true
      → newest fits (b ∷ bs) cur ≡ newest fits bs (some b)
  unfolding newest
  newest-taken fits b bs cur h = rw h refl

  newest-skipped :
      (fits : BearingReport A → Bool) (b : BearingReport A) (bs : List (BearingReport A))
      (cur : Option (BearingReport A))
      → (fits b && is_newer b cur) ≡ false
      → newest fits (b ∷ bs) cur ≡ newest fits bs cur
  unfolding newest
  newest-skipped fits b bs cur h = rw h refl

  -- Every bearing that passes is no newer than the result.
  newest-All :
      (fits : BearingReport A → Bool) (bs : List (BearingReport A)) (cur : Option (BearingReport A))
      → All (λ c. fits c ≡ true → IsNoOlder (some c) (newest fits bs cur)) bs
  unfolding newest
  newest-All fits [] cur = tt
  newest-All fits (b ∷ bs) cur = elim (Bool-cases (fits b && is_newer b cur)) [
    | inl taken ↦
        subst (λ r. All (λ c. fits c ≡ true → IsNoOlder (some c) r) (b ∷ bs))
          (sym (newest-taken fits b bs cur taken))
          ((λ h. newest-IsNoOlder fits bs (some b)), newest-All fits bs (some b))
    | inr skipped ↦
        subst (λ r. All (λ c. fits c ≡ true → IsNoOlder (some c) r) (b ∷ bs))
          (sym (newest-skipped fits b bs cur skipped))
          (
            (λ h.
                IsNoOlder-trans (some b) cur _
                  (not_newer-IsNoOlder b cur (second_false _ _ h skipped))
                  (newest-IsNoOlder fits bs cur)),
            newest-All fits bs cur,
          )
  ]

  -- The result comes from the list or is the one at hand.
  newest-IsAmong :
      (fits : BearingReport A → Bool) (bs : List (BearingReport A)) (cur : Option (BearingReport A))
      (found : BearingReport A)
      → newest fits bs cur ≡ some found
      → (IsAmong found bs × (fits found ≡ true)) ⊎ (cur ≡ some found)
  unfolding newest
  newest-IsAmong fits [] cur found = λ h. inr h
  newest-IsAmong fits (b ∷ bs) cur found = elim (Bool-cases (fits b)) [
    | inl fit ↦ rw fit (elim (Bool-cases (is_newer b cur)) [
      | inl newer ↦ rw newer (λ h. elim (newest-IsAmong fits bs (some b) found h) [
        | inl later ↦ inl (inr later.0, later.1)
        | inr at_hand ↦ let here : b ≡ found = cc in inl (inl here, ap fits (sym here) ∙ fit)
      ])
      | inr older ↦ rw older (λ h. elim (newest-IsAmong fits bs cur found h) [
        | inl later ↦ inl (inr later.0, later.1)
        | inr at_hand ↦ inr at_hand
      ])
    ])
    | inr unfit ↦ rw unfit (λ h. elim (newest-IsAmong fits bs cur found h) [
      | inl later ↦ inl (inr later.0, later.1)
      | inr at_hand ↦ inr at_hand
    ])
  ]

  settle :
      (fits : BearingReport A → Bool) (bs : List (BearingReport A))
      (result : Option (BearingReport A))
      → All (λ c. fits c ≡ true → IsNoOlder (some c) result) bs
      → ((found : BearingReport A)
          → result ≡ some found
          → (IsAmong found bs × (fits found ≡ true)) ⊎ (none ≡ some found))
      → IsNewest fits bs result
  unfolding IsNewest IsNoOlder
  settle fits bs none above from = all_unfit bs above
    where
      all_unfit :
          (cs : List (BearingReport A))
          → All (λ c. fits c ≡ true → ⊥) cs
          → All (λ c. fits c ≡ false) cs
      all_unfit [] h = tt
      all_unfit (c ∷ cs) h = (
        elim (Bool-cases (fits c)) [ inl fit ↦ absurd (h.0 fit) | inr unfit ↦ unfit ],
        all_unfit cs h.1,
      )
  settle fits bs (some b) above from = elim (from b refl) [
    | inl found ↦ (found.0, found.1, above)
    | inr nothing ↦ absurd (cc)
  ]

  newest-IsNewest :
      (fits : BearingReport A → Bool) (bs : List (BearingReport A))
      → IsNewest fits bs (newest fits bs none)
  newest-IsNewest fits bs =
      settle fits bs (newest fits bs none) (newest-All fits bs none) (newest-IsAmong fits bs none)

  -- The loop of `latest_bearings_per_node` looks for the newest of each node.
  lookup-latest_loop :
      (n : ℕ) (bs : List (BearingReport A)) (latest : Dict ℕ (BearingReport A))
      → lookup n (latest_loop bs latest) ≡ newest (λ b. b.node_id == n) bs (lookup n latest)
  unfolding latest_loop newest
  lookup-latest_loop n [] latest = refl
  lookup-latest_loop n (b ∷ bs) latest = elim (Bool-cases (b.node_id == n)) [
    | inl same ↦
        let here : lookup b.node_id latest ≡ lookup n latest =
          ap (λ k. lookup k latest) (==→eq b.node_id n same) in
        elim (Bool-cases (is_newer b (lookup n latest))) [
          | inl newer ↦
              rw (same, here, newer)
                (lookup-latest_loop n bs (insert b.node_id b latest)
                  ∙ ap (newest (λ c. c.node_id == n) bs)
                      (lookup-insert n b.node_id b latest ∙ rw same refl))
          | inr older ↦ rw (same, here, older) (lookup-latest_loop n bs latest)
        ]
    | inr other ↦ rw other (elim (Bool-cases (is_newer b (lookup b.node_id latest))) [
      | inl newer ↦ rw newer (
          lookup-latest_loop n bs (insert b.node_id b latest)
          ∙ ap (newest (λ c. c.node_id == n) bs)
              (lookup-insert n b.node_id b latest ∙ rw other refl))
      | inr older ↦ rw older (lookup-latest_loop n bs latest)
    ])
  ]

  pub lookup-latest_loop-IsNewest :
      (n : ℕ) (bs : List (BearingReport A))
      → IsNewest (λ b. b.node_id == n) bs (lookup n (latest_loop bs []))
  lookup-latest_loop-IsNewest n bs =
      rw (lookup-latest_loop n bs []) (newest-IsNewest (λ b. b.node_id == n) bs)

  -- The test of the loop of `latest_peer_bearing`.
  unfoldable pub is_peer : ℕ → BearingReport A → Bool
  is_peer n b = b.node_id == n && is_peer_link b.prior_kind

  peer_loop-eq-newest :
      (n : ℕ) (bs : List (BearingReport A)) (cur : Option (BearingReport A))
      → peer_loop n bs cur ≡ newest (is_peer n) bs cur
  unfolding peer_loop newest is_peer
  peer_loop-eq-newest n [] cur = refl
  peer_loop-eq-newest n (b ∷ bs) cur =
      rw (peer_loop-eq-newest n bs cur, peer_loop-eq-newest n bs (some b)) refl

  pub peer_loop-IsNewest :
      (n : ℕ) (bs : List (BearingReport A)) → IsNewest (is_peer n) bs (peer_loop n bs none)
  peer_loop-IsNewest n bs = rw (peer_loop-eq-newest n bs none) (newest-IsNewest (is_peer n) bs)
