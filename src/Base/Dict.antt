-- ===== src/Base/Dict.antt =====
-- The dict of the source, in insertion order: a key occurs once, a write to a key that is there
-- keeps its place, and a new key goes to the end. Keys are compared through an instance.
pub mod Members
pub mod Blocks
use Prim.Native.Nat.{ℕ, suc, ◌+◌}
use mathlib.Core.Path.{◌≡◌, refl, sym, ap, ap₂, ◌∙◌}
use mathlib.Core.Logic.{◌↔◌, ◌⊎◌, inl, inr}
use mathlib.Core.Bool.{Bool, true, false, ◌||◌, ◌&&◌}
use mathlib.Core.Option.{Option, none, some}
use mathlib.Core.List.{List, [], ◌∷◌, ◌++◌, map}
use rfmesh_workspace.Base.Tests.{if◌then◌else◌, Bool-cases, ◌==◌, ==_iff}
use rfmesh_workspace.Base.Lists.{All, All-append, length}

pub record Key (K : Type 0) : Type 0 where
  pub same : K → K → Bool
  pub same_iff : (a b : K) → (same a b ≡ true) ↔ (a ≡ b)

instance abbrev pub number_key : Key ℕ
number_key = record { same = ◌==◌; same_iff = ==_iff }

pub same_pair : {A B : Type 0} ⦃a : Key A⦄ ⦃b : Key B⦄ → A × B → A × B → Bool
same_pair ⦃a⦄ ⦃b⦄ x y = a.same x.0 y.0 && b.same x.1 y.1

both_true : (a b : Bool) → (a && b) ≡ true → (a ≡ true) × (b ≡ true)
both_true true b h = (refl, h)
both_true false b h = absurd (cc)

pub same_pair_iff :
    {A B : Type 0} ⦃a : Key A⦄ ⦃b : Key B⦄ (x y : A × B) → (same_pair x y ≡ true) ↔ (x ≡ y)
unfolding same_pair
same_pair_iff ⦃a⦄ ⦃b⦄ x y = (
  λ h.
      let parts = both_true _ _ h in
      ap₂ (λ s t. (s, t)) ((a.same_iff x.0 y.0).0 parts.0) ((b.same_iff x.1 y.1).0 parts.1),
  λ e. rw ((a.same_iff x.0 y.0).1 (ap (λ p. p.0) e), (b.same_iff x.1 y.1).1 (ap (λ p. p.1) e)) refl,
)

instance abbrev pub pair_key : {A B : Type 0} ⦃a : Key A⦄ ⦃b : Key B⦄ → Key (A × B)
pair_key ⦃a⦄ ⦃b⦄ = record { same = same_pair; same_iff = same_pair_iff }

abbrev pub Dict : Type 0 → Type 0 → Type 0
Dict K V = List (K × V)

module _ {K : Type 0} ⦃key : Key K⦄ where
  pub same_refl : (k : K) → key.same k k ≡ true
  same_refl k = (key.same_iff k k).1 refl

  pub same→eq : (j k : K) → key.same j k ≡ true → j ≡ k
  same→eq j k = (key.same_iff j k).0

  -- The test does not depend on the order of its arguments.
  pub same_sym : (j k : K) (b : Bool) → key.same j k ≡ b → key.same k j ≡ b
  same_sym j k true h = (key.same_iff k j).1 (sym (same→eq j k h))
  same_sym j k false h = elim (Bool-cases (key.same k j)) [
    | inl hit ↦
        let clash : false ≡ true = sym h ∙ (key.same_iff j k).1 (sym (same→eq k j hit)) in
        absurd (cc)
    | inr miss ↦ miss
  ]

module _ {K V : Type 0} where
  abbrev pub values : Dict K V → List V
  values [] = []
  values ((k, v) ∷ d) = v ∷ values d

  abbrev pub keys : Dict K V → List K
  keys [] = []
  keys ((k, v) ∷ d) = k ∷ keys d

module _ {K V : Type 0} ⦃key : Key K⦄ where
  -- `d.get(k)`
  abbrev pub lookup : K → Dict K V → Option V
  lookup k [] = none
  lookup k ((j, v) ∷ d) = if key.same j k then some v else lookup k d

  -- `k in d`
  abbrev pub has_key : K → Dict K V → Bool
  has_key k d = elim (lookup k d) [ none ↦ false | some _ ↦ true ]

  -- `d[k] = v`
  abbrev pub insert : K → V → Dict K V → Dict K V
  insert k v [] = (k, v) ∷ []
  insert k v ((j, w) ∷ d) = if key.same j k then (j, v) ∷ d else (j, w) ∷ insert k v d

  -- `d.pop(k, None)`, for the dict that is left
  abbrev pub erase : K → Dict K V → Dict K V
  erase k [] = []
  erase k ((j, w) ∷ d) = if key.same j k then erase k d else (j, w) ∷ erase k d

  pub lookup-insert :
      (j k : K) (v : V) (d : Dict K V)
      → lookup j (insert k v d) ≡ (if key.same k j then some v else lookup j d)
  lookup-insert j k v [] = refl
  lookup-insert j k v ((i, w) ∷ d) = elim (Bool-cases (key.same i k)) [
    | inl here ↦
        rw (here, same→eq i k here)
          (elim (Bool-cases (key.same k j)) [ inl hit ↦ rw hit refl | inr miss ↦ rw miss refl ])
    | inr there ↦ rw there (elim (Bool-cases (key.same i j)) [
      | inl hit ↦
          let other : key.same k j ≡ false =
            ap (λ t. key.same k t) (sym (same→eq i j hit)) ∙ same_sym i k false there in
          rw (hit, other) refl
      | inr miss ↦ rw miss (lookup-insert j k v d)
    ])
  ]

  pub lookup-erase :
      (j k : K) (d : Dict K V) → lookup j (erase k d) ≡ (if key.same k j then none else lookup j d)
  lookup-erase j k [] = elim (Bool-cases (key.same k j)) [
    | inl hit ↦ rw hit refl
    | inr miss ↦ rw miss refl
  ]
  lookup-erase j k ((i, w) ∷ d) = elim (Bool-cases (key.same i k)) [
    | inl here ↦
        rw (here, same→eq i k here)
          (lookup-erase j k d ∙ (elim (Bool-cases (key.same k j)) [
            | inl hit ↦ rw hit refl
            | inr miss ↦ rw miss refl
          ]))
    | inr there ↦ rw there (elim (Bool-cases (key.same i j)) [
      | inl hit ↦
          let other : key.same k j ≡ false =
            ap (λ t. key.same k t) (sym (same→eq i j hit)) ∙ same_sym i k false there in
          rw (hit, other) refl
      | inr miss ↦ rw miss (lookup-erase j k d)
    ])
  ]

  -- No key occurs twice.
  abbrev pub IsDistinct : Dict K V → Type 0
  IsDistinct [] = Unit
  IsDistinct ((k, v) ∷ d) = (lookup k d ≡ none) × IsDistinct d

  pub insert-IsDistinct : (k : K) (v : V) (d : Dict K V) → IsDistinct d → IsDistinct (insert k v d)
  insert-IsDistinct k v [] h = (refl, tt)
  insert-IsDistinct k v ((j, w) ∷ d) h = elim (Bool-cases (key.same j k)) [
    | inl here ↦ rw here h
    | inr there ↦
        rw there
          (lookup-insert j k v d ∙ rw (same_sym j k false there) h.0, insert-IsDistinct k v d h.1)
  ]

  pub erase-IsDistinct : (k : K) (d : Dict K V) → IsDistinct d → IsDistinct (erase k d)
  erase-IsDistinct k [] h = tt
  erase-IsDistinct k ((j, w) ∷ d) h = elim (Bool-cases (key.same j k)) [
    | inl here ↦ rw here (erase-IsDistinct k d h.1)
    | inr there ↦
        rw there (lookup-erase j k d ∙ rw (same_sym j k false there) h.0, erase-IsDistinct k d h.1)
  ]
