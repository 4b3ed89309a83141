-- ===== src/Base/Dict/Blocks.antt =====
-- Dicts as blocks of entries: what a loop over the keys of a dict sees before and behind an entry.
use mathlib.Core.Path.{◌≡◌, refl, ap, ◌∙◌}
use mathlib.Core.Logic.{inl, inr}
use mathlib.Core.Bool.{false}
use mathlib.Core.Option.{none, some}
use mathlib.Core.List.{[], ◌∷◌, ◌++◌}
use rfmesh_workspace.Base.Tests.{Bool-cases}
use rfmesh_workspace.Base.Dict.{Key, Dict, lookup, erase, IsDistinct, same_refl, same_sym}

module _ {K V : Type 0} ⦃key : Key K⦄ where
  pub lookup-append : (k : K) (d e : Dict K V) → lookup k d ≡ none → lookup k (d ++ e) ≡ lookup k e
  lookup-append k [] e = λ h. refl
  lookup-append k ((j, w) ∷ d) e = elim (Bool-cases (key.same j k)) [
    | inl here ↦ rw here (λ h. absurd (cc))
    | inr there ↦ rw there (lookup-append k d e)
  ]

  pub erase_absent : (k : K) (d : Dict K V) → lookup k d ≡ none → erase k d ≡ d
  erase_absent k [] = λ h. refl
  erase_absent k ((j, w) ∷ d) = elim (Bool-cases (key.same j k)) [
    | inl here ↦ rw here (λ h. absurd (cc))
    | inr there ↦ rw there (λ h. ap (λ t. (j, w) ∷ t) (erase_absent k d h))
  ]

  erase-append : (k : K) (d e : Dict K V) → erase k (d ++ e) ≡ erase k d ++ erase k e
  erase-append k [] e = refl
  erase-append k ((j, w) ∷ d) e = elim (Bool-cases (key.same j k)) [
    | inl here ↦ rw here (erase-append k d e)
    | inr there ↦ rw there (ap (λ t. (j, w) ∷ t) (erase-append k d e))
  ]

  -- A key of the back is a key of the whole.
  lookup_back : (k : K) (d e : Dict K V) → lookup k (d ++ e) ≡ none → lookup k e ≡ none
  lookup_back k [] e = λ h. h
  lookup_back k ((j, w) ∷ d) e = elim (Bool-cases (key.same j k)) [
    | inl here ↦ rw here (λ h. absurd (cc))
    | inr there ↦ rw there (lookup_back k d e)
  ]

  lookup_skip :
      (j : K) (d : Dict K V) (k : K) (v : V) (e : Dict K V)
      → lookup j (d ++ ((k, v) ∷ e)) ≡ none
      → lookup j (d ++ e) ≡ none
  lookup_skip j [] k v e = elim (Bool-cases (key.same k j)) [
    | inl here ↦ rw here (λ h. absurd (cc))
    | inr there ↦ rw there (λ h. h)
  ]
  lookup_skip j ((i, w) ∷ d) k v e = elim (Bool-cases (key.same i j)) [
    | inl here ↦ rw here (λ h. absurd (cc))
    | inr there ↦ rw there (lookup_skip j d k v e)
  ]

  not_found : (j k : K) (v : V) (e : Dict K V) → lookup j ((k, v) ∷ e) ≡ none → key.same k j ≡ false
  not_found j k v e = elim (Bool-cases (key.same k j)) [
    | inl here ↦ rw here (λ h. absurd (cc))
    | inr there ↦ rw there (λ h. refl)
  ]

  -- In a dict the key of an entry stands neither before nor behind it.
  pub IsDistinct-middle :
      (front : Dict K V) (k : K) (v : V) (back : Dict K V)
      → IsDistinct (front ++ ((k, v) ∷ back))
      → (lookup k front ≡ none) × (lookup k back ≡ none)
  IsDistinct-middle [] k v back h = (refl, h.0)
  IsDistinct-middle ((j, w) ∷ front) k v back h =
      let other : key.same j k ≡ false =
        same_sym k j false (not_found j k v back (lookup_back j front ((k, v) ∷ back) h.0)) in
      rw other (IsDistinct-middle front k v back h.1)

  pub IsDistinct-skip :
      (front : Dict K V) (k : K) (v : V) (back : Dict K V)
      → IsDistinct (front ++ ((k, v) ∷ back))
      → IsDistinct (front ++ back)
  IsDistinct-skip [] k v back h = h.1
  IsDistinct-skip ((j, w) ∷ front) k v back h =
      (lookup_skip j front k v back h.0, IsDistinct-skip front k v back h.1)

  pub lookup_middle :
      (front : Dict K V) (k : K) (v : V) (back : Dict K V)
      → IsDistinct (front ++ ((k, v) ∷ back))
      → lookup k (front ++ ((k, v) ∷ back)) ≡ some v
  lookup_middle front k v back h =
      lookup-append k front ((k, v) ∷ back) (IsDistinct-middle front k v back h).0
      ∙ rw (same_refl k) refl

  pub erase_middle :
      (front : Dict K V) (k : K) (v : V) (back : Dict K V)
      → IsDistinct (front ++ ((k, v) ∷ back))
      → erase k (front ++ ((k, v) ∷ back)) ≡ front ++ back
  erase_middle front k v back h =
      let (before, behind) = IsDistinct-middle front k v back h in
      erase-append k front ((k, v) ∷ back)
      ∙ rw (erase_absent k front before, same_refl k, erase_absent k back behind) refl
