-- ===== src/Node/Dashboard/Fanout.antt =====
-- The subscribers behind a fan-out of `DashboardPubSub`.
use rfmesh_workspace.Base.{
  ℕ, suc, ◌+◌, ◌≤◌, ◌<◌, ◌&&◌, arith, ◌≡◌, refl, sym, ap, ◌∙◌, List, [], ◌∷◌, ◌++◌, Bool, true,
  false, ◌==◌, ==→eq, ==_refl, if◌then◌else◌, Bool-cases, inl, inr, All, All-append, append_assoc,
}
use rfmesh_workspace.Node.Dashboard.{remove_subscriber, to_drop, drop_all, fanout}

-- The subscribers of a list whose send went through.
abbrev pub healthy : (ℕ → Bool) → List ℕ → List ℕ
healthy fails [] = []
healthy fails (sub ∷ subs) = let rest = healthy fails subs in if fails sub then rest else sub ∷ rest

abbrev IsHealthy : (ℕ → Bool) → ℕ → Type 0
IsHealthy fails sub = fails sub ≡ false

remove_subscriber-append :
    (fails : ℕ → Bool) (front : List ℕ) (sub : ℕ) (back : List ℕ)
    → All (IsHealthy fails) front
    → fails sub ≡ true
    → remove_subscriber sub (front ++ (sub ∷ back)) ≡ front ++ back
unfolding remove_subscriber
remove_subscriber-append fails [] sub back h failed = rw (==_refl sub) refl
remove_subscriber-append fails (x ∷ front) sub back h failed = elim (Bool-cases (x == sub)) [
  | inl same ↦
      let equal : x ≡ sub = ==→eq x sub same in
      let clash : true ≡ false = sym failed ∙ ap fails (sym equal) ∙ h.0 in absurd (cc)
  | inr other ↦
      rw other (ap (λ rest. x ∷ rest) (remove_subscriber-append fails front sub back h.1 failed))
]

-- Every send to a subscriber goes as `fails` says, also where it is registered more than once.
abbrev pub SameFate : (ℕ → Bool) → (ℕ → Bool) → List ℕ → Type 0
SameFate raises fails [] = Unit
SameFate raises fails (sub ∷ subs) =
    (raises 0 ≡ fails sub) × SameFate (λ i. raises (suc i)) fails subs

drop_all-to_drop :
    (raises fails : ℕ → Bool) (front subs later : List ℕ)
    → SameFate raises fails subs
    → All (IsHealthy fails) front
    → drop_all (to_drop raises subs) (front ++ (subs ++ later))
      ≡ front ++ (healthy fails subs ++ later)
unfolding drop_all to_drop
drop_all-to_drop raises fails front [] later same h = refl
drop_all-to_drop raises fails front (sub ∷ subs) later same h =
    let next : ℕ → Bool = λ i. raises (suc i) in
    elim (Bool-cases (fails sub)) [
      | inl failed ↦
          rw (same.0, failed)
            (ap (drop_all (to_drop next subs))
                (remove_subscriber-append fails front sub (subs ++ later) h failed)
              ∙ drop_all-to_drop next fails front subs later same.1 h)
      | inr went ↦
          rw (same.0, went)
            (ap (drop_all (to_drop next subs)) (sym (append_assoc front (sub ∷ []) (subs ++ later)))
              ∙ drop_all-to_drop next fails (front ++ (sub ∷ [])) subs later same.1
                  (All-append (IsHealthy fails) front (sub ∷ []) h (went, tt))
              ∙ append_assoc front (sub ∷ []) (healthy fails subs ++ later))
    ]

-- If all sends to one subscriber go through or all of them fail, as where none is registered twice, and,
-- while a fan-out runs, other subscribers may register but none leaves, then afterwards the subscribers
-- are those whose sends went through, in their order, and behind them the new ones.
pub fanout-healthy :
    (raises fails : ℕ → Bool) (subs later : List ℕ)
    → SameFate raises fails subs
    → fanout raises (λ current. current ++ later) subs ≡ healthy fails subs ++ later
unfolding fanout
fanout-healthy raises fails subs later same = drop_all-to_drop raises fails [] subs later same tt

abbrev pub times_in : ℕ → List ℕ → ℕ
times_in x [] = 0
times_in x (y ∷ ys) = (if y == x then 1 else 0) + times_in x ys

-- How many sends to a subscriber raise.
abbrev pub failures : ℕ → (ℕ → Bool) → List ℕ → ℕ
failures x raises [] = 0
failures x raises (sub ∷ subs) =
    (if raises 0 && sub == x then 1 else 0) + failures x (λ i. raises (suc i)) subs

times_in-append : (x : ℕ) (xs ys : List ℕ) → times_in x (xs ++ ys) ≡ times_in x xs + times_in x ys
times_in-append x [] ys = omega arith
times_in-append x (y ∷ xs) ys = omega (arith, times_in-append x xs ys)

times_in-remove_subscriber :
    (x y : ℕ) (subs : List ℕ)
    → 0 < times_in y subs
    → times_in x (remove_subscriber y subs) + (if y == x then 1 else 0) ≡ times_in x subs
unfolding remove_subscriber
times_in-remove_subscriber x y [] h = absurd (omega arith)
times_in-remove_subscriber x y (z ∷ subs) h = elim (Bool-cases (z == y)) [
  | inl same ↦ let equal : z ≡ y = ==→eq z y same in rw (same, equal) (omega arith)
  | inr other ↦
      let there : 0 < times_in y subs = ground (arith, h, other) in
      rw (other) (omega (arith, times_in-remove_subscriber x y subs there))
]

times_in-drop_all :
    (x : ℕ) (dropped subs : List ℕ)
    → ((y : ℕ) → times_in y dropped ≤ times_in y subs)
    → times_in x (drop_all dropped subs) + times_in x dropped ≡ times_in x subs
unfolding drop_all
times_in-drop_all x [] subs h = omega arith
times_in-drop_all x (y ∷ dropped) subs h =
    let here : 0 < times_in y subs = ground (arith, h y, ==_refl y) in
    let rest : (w : ℕ) → times_in w dropped ≤ times_in w (remove_subscriber y subs) =
      λ w. omega (arith, h w, times_in-remove_subscriber w y subs here) in
    omega (
      arith,
      times_in-drop_all x dropped (remove_subscriber y subs) rest,
      times_in-remove_subscriber x y subs here,
    )

times_in-to_drop :
    (x : ℕ) (raises : ℕ → Bool) (subs : List ℕ)
    → (times_in x (to_drop raises subs) ≡ failures x raises subs)
      × (failures x raises subs ≤ times_in x subs)
unfolding to_drop
times_in-to_drop x raises [] = (refl, omega arith)
times_in-to_drop x raises (sub ∷ subs) =
    let rest = times_in-to_drop x (λ i. raises (suc i)) subs in
    elim (Bool-cases (raises 0)) [
      | inl raised ↦ rw (raised) (omega (arith, rest.0), omega (arith, rest.1))
      | inr went ↦ rw (went) (omega (arith, rest.0), omega (arith, rest.1))
    ]

-- Whichever sends raise, a fan-out during which others register takes as many registrations of each
-- subscriber as sends to it raised.
pub fanout_count :
    (raises : ℕ → Bool) (subs later : List ℕ) (x : ℕ)
    → times_in x (fanout raises (λ current. current ++ later) subs) + failures x raises subs
      ≡ times_in x subs + times_in x later
unfolding fanout
fanout_count raises subs later x =
    let dropped = to_drop raises subs in
    let enough : (y : ℕ) → times_in y dropped ≤ times_in y (subs ++ later) =
      λ y. omega (arith, times_in-to_drop y raises subs, times_in-append y subs later) in
    omega (
      arith,
      times_in-drop_all x dropped (subs ++ later) enough,
      times_in-to_drop x raises subs,
      times_in-append x subs later,
    )
