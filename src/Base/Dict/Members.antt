-- ===== src/Base/Dict/Members.antt =====
-- What a dict holds, as a list of its values: the snapshots `tuple(d.values())` of the source.
use mathlib.Core.Path.{◌≡◌, refl, sym, ap, ◌∙◌, subst}
use mathlib.Core.Logic.{◌⊎◌, inl, inr}
use mathlib.Core.Option.{none, some}
use mathlib.Core.List.{List, [], ◌∷◌}
use rfmesh_workspace.Base.Tests.{Bool-cases}
use rfmesh_workspace.Base.Lists.{All}
use rfmesh_workspace.Base.Dict.{
  Key, Dict, lookup, insert, erase, values, IsDistinct, same→eq, same_refl,
}

module _ {A : Type 0} where
  abbrev pub IsAmong : A → List A → Type 0
  IsAmong a [] = ⊥
  IsAmong a (x ∷ xs) = (x ≡ a) ⊎ IsAmong a xs

  pub All-IsAmong {κ} : (P : A → Type κ) (xs : List A) (a : A) → All P xs → IsAmong a xs → P a
  All-IsAmong P [] a h among = elim among [ ]
  All-IsAmong P (x ∷ xs) a h (inl here) = subst P here h.0
  All-IsAmong P (x ∷ xs) a h (inr later) = All-IsAmong P xs a h.1 later

  pub IsAmong-All {κ} : (P : A → Type κ) (xs : List A) → ((a : A) → IsAmong a xs → P a) → All P xs
  IsAmong-All P [] h = tt
  IsAmong-All P (x ∷ xs) h = (h x (inl refl), IsAmong-All P xs (λ a later. h a (inr later)))

module _ {K V : Type 0} ⦃key : Key K⦄ where
  pub lookup-IsAmong : (k : K) (v : V) (d : Dict K V) → lookup k d ≡ some v → IsAmong v (values d)
  lookup-IsAmong k v [] = λ h. absurd (cc)
  lookup-IsAmong k v ((j, w) ∷ d) = elim (Bool-cases (key.same j k)) [
    | inl here ↦ rw here (λ h. let found : w ≡ v = cc in inl found)
    | inr there ↦ rw there (λ h. inr (lookup-IsAmong k v d h))
  ]

  -- Every value lies under the key that the source computes from it.
  abbrev pub IsKeyed : (V → K) → Dict K V → Type 0
  IsKeyed key_of [] = Unit
  IsKeyed key_of ((k, v) ∷ d) = (k ≡ key_of v) × IsKeyed key_of d

  pub insert-IsKeyed :
      (key_of : V → K) (v : V) (d : Dict K V)
      → IsKeyed key_of d
      → IsKeyed key_of (insert (key_of v) v d)
  insert-IsKeyed key_of v [] h = (refl, tt)
  insert-IsKeyed key_of v ((j, w) ∷ d) h = elim (Bool-cases (key.same j (key_of v))) [
    | inl here ↦ rw here (same→eq j (key_of v) here, h.1)
    | inr there ↦ rw there (h.0, insert-IsKeyed key_of v d h.1)
  ]

  pub erase-IsKeyed :
      (key_of : V → K) (k : K) (d : Dict K V) → IsKeyed key_of d → IsKeyed key_of (erase k d)
  erase-IsKeyed key_of k [] h = tt
  erase-IsKeyed key_of k ((j, w) ∷ d) h = elim (Bool-cases (key.same j k)) [
    | inl here ↦ rw here (erase-IsKeyed key_of k d h.1)
    | inr there ↦ rw there (h.0, erase-IsKeyed key_of k d h.1)
  ]

  -- A value that the dict holds is the one under its key.
  pub IsAmong-lookup :
      (key_of : V → K) (v : V) (d : Dict K V)
      → IsDistinct d
      → IsKeyed key_of d
      → IsAmong v (values d)
      → lookup (key_of v) d ≡ some v
  IsAmong-lookup key_of v [] one keyed h = elim h [ ]
  IsAmong-lookup key_of v ((j, w) ∷ d) one keyed (inl here) =
      rw (keyed.0, here, same_refl (key_of v)) refl
  IsAmong-lookup key_of v ((j, w) ∷ d) one keyed (inr later) =
      elim (Bool-cases (key.same j (key_of v))) [
        | inl hit ↦
            let clash : none ≡ some v =
              sym one.0
              ∙ ap (λ k. lookup k d) (same→eq j (key_of v) hit)
              ∙ IsAmong-lookup key_of v d one.1 keyed.1 later in
            absurd (cc)
        | inr miss ↦ rw miss (IsAmong-lookup key_of v d one.1 keyed.1 later)
      ]

  -- What is found lies under its key.
  pub lookup-IsKeyed :
      (key_of : V → K) (k : K) (v : V) (d : Dict K V)
      → IsKeyed key_of d
      → lookup k d ≡ some v
      → key_of v ≡ k
  lookup-IsKeyed key_of k v [] keyed = λ h. absurd (cc)
  lookup-IsKeyed key_of k v ((j, w) ∷ d) keyed = elim (Bool-cases (key.same j k)) [
    | inl here ↦
        rw here
          (λ h. let found : w ≡ v = cc in ap key_of (sym found) ∙ sym keyed.0 ∙ same→eq j k here)
    | inr there ↦ rw there (lookup-IsKeyed key_of k v d keyed.1)
  ]
