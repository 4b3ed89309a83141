-- ===== src/Backend/Store/Sorting.antt =====
-- The order of `list_fixes`, the sorted snapshot of the store's fixes.
use rfmesh_workspace.Base.{
  ℕ, ◌≤◌, ◌≡◌, refl, ◌∙◌, List, [], ◌∷◌, leb, leb→le, ◌==◌, Bool-cases, All, inl, inr, arith,
  if◌then◌else◌,
}
use rfmesh_workspace.Base.Dict.{number_key, pair_key, values}
use rfmesh_workspace.Backend.Store.{FixEvent, Store, place, sorted, list_fixes}

module _ {A : Type 0} where
  abbrev pub IsFalling : List (FixEvent A) → Type 0
  IsFalling [] = Unit
  IsFalling (f ∷ fs) = All (λ g. g.t_unix_ns ≤ f.t_unix_ns) fs × IsFalling fs

  place-All :
      (P : FixEvent A → Type 0) (f : FixEvent A) (fs : List (FixEvent A))
      → P f
      → All P fs
      → All P (place f fs)
  unfolding place
  place-All P f [] hf hs = (hf, tt)
  place-All P f (g ∷ gs) hf hs = elim (Bool-cases (leb g.t_unix_ns f.t_unix_ns)) [
    | inl before ↦ rw before (hf, hs)
    | inr behind ↦ rw behind (hs.0, place-All P f gs hf hs.1)
  ]

  falls_further :
      (f g : FixEvent A) (gs : List (FixEvent A))
      → g.t_unix_ns ≤ f.t_unix_ns
      → All (λ x. x.t_unix_ns ≤ g.t_unix_ns) gs
      → All (λ x. x.t_unix_ns ≤ f.t_unix_ns) gs
  falls_further f g [] le h = tt
  falls_further f g (x ∷ gs) le h = (omega (arith, h.0), falls_further f g gs le h.1)

  place-IsFalling :
      (f : FixEvent A) (fs : List (FixEvent A)) → IsFalling fs → IsFalling (place f fs)
  unfolding place
  place-IsFalling f [] h = (tt, tt)
  place-IsFalling f (g ∷ gs) h = elim (Bool-cases (leb g.t_unix_ns f.t_unix_ns)) [
    | inl before ↦ rw before ((leb→le _ _ before, falls_further f g gs (leb→le _ _ before) h.0), h)
    | inr behind ↦ rw behind (
      place-All (λ x. x.t_unix_ns ≤ g.t_unix_ns) f gs (ground arith) h.0,
      place-IsFalling f gs h.1,
    )
  ]

  sorted-IsFalling : (fs : List (FixEvent A)) → IsFalling (sorted fs)
  unfolding sorted
  sorted-IsFalling [] = tt
  sorted-IsFalling (f ∷ fs) = place-IsFalling f (sorted fs) (sorted-IsFalling fs)

  -- The fixes of one time, in their order.
  abbrev pub at_time : ℕ → List (FixEvent A) → List (FixEvent A)
  at_time t [] = []
  at_time t (f ∷ fs) = if f.t_unix_ns == t then f ∷ at_time t fs else at_time t fs

  at_time-place :
      (t : ℕ) (f : FixEvent A) (fs : List (FixEvent A))
      → at_time t (place f fs) ≡ at_time t (f ∷ fs)
  unfolding place
  at_time-place t f [] = refl
  at_time-place t f (g ∷ gs) = elim (Bool-cases (leb g.t_unix_ns f.t_unix_ns)) [
    | inl before ↦ rw before refl
    | inr behind ↦ rw (behind, at_time-place t f gs) (ground arith)
  ]

  at_time-sorted : (t : ℕ) (fs : List (FixEvent A)) → at_time t (sorted fs) ≡ at_time t fs
  unfolding sorted
  at_time-sorted t [] = refl
  at_time-sorted t (f ∷ fs) = at_time-place t f (sorted fs) ∙ rw (at_time-sorted t fs) refl

  -- `list_fixes` falls in time, newest first, and for each time it holds the stored fixes of that
  -- time, as often as they are stored and in the order in which they are stored.
  pub list_fixes-IsFalling :
      (s : Store A)
      → IsFalling (list_fixes s) × ((t : ℕ) → at_time t (list_fixes s) ≡ at_time t (values s.fixes))
  unfolding list_fixes
  list_fixes-IsFalling s =
      (sorted-IsFalling (values s.fixes), λ t. at_time-sorted t (values s.fixes))
