-- ===== src/Fusion/Consensus.antt =====
-- packages/rfmesh-fusion/src/rfmesh_fusion/fuser.py: the class that the bearings agree on.
pub mod Majority
use mathlib.Core.Logic.{ite}
use rfmesh_workspace.Base.{
  ℕ, ◌+◌, ◌*◌, List, [], ◌∷◌, Option, none, some, Bool, ltb, leb, if◌then◌else◌, length,
}
use rfmesh_workspace.Fusion.Bearings.{BearingReport, EmitterClass, unknown}

module _ {K : Type 0} (same : Discrete K) where
  -- `Counter`: a key keeps the place of its first occurrence.
  count_one : K → List (K × ℕ) → List (K × ℕ)
  count_one k [] = (k, 1) ∷ []
  count_one k ((j, n) ∷ counts) = ite (same j k) ((j, n + 1) ∷ counts) ((j, n) ∷ count_one k counts)

  count_from : List (K × ℕ) → List K → List (K × ℕ)
  count_from counts [] = counts
  count_from counts (k ∷ ks) = count_from (count_one k counts) ks

  unfoldable pub counter : List K → List (K × ℕ)
  unfolding count_from count_one
  counter ks = count_from [] ks

-- `most_common(1)[0]`: the first of the largest counts, from the best so far.
unfoldable pub most_common : {K : Type 0} → K × ℕ → List (K × ℕ) → K × ℕ
most_common best [] = best
most_common best ((k, n) ∷ counts) = most_common (if ltb best.1 n then (k, n) else best) counts

unfoldable pub EmitterClass-discrete : Discrete EmitterClass
EmitterClass-discrete = hlevel

module _ {P : Type 0} where
  unfoldable pub classified : List (BearingReport P) → List EmitterClass
  classified [] = []
  classified (b ∷ bearings) = elim b.emitter_class [
    | none ↦ classified bearings
    | some c ↦ c ∷ classified bearings
  ]

majority : List EmitterClass → List (EmitterClass × ℕ) → Option EmitterClass
majority classes [] = none
majority classes (first ∷ counts) =
    let winner = most_common first counts in
    if ltb (length classes) (winner.1 * 2) then some winner.0 else some unknown

-- `_consensus_emitter_class`
unfoldable pub consensus_emitter_class : {P : Type 0} → List (BearingReport P) → Option EmitterClass
unfolding majority
consensus_emitter_class bearings =
    majority (classified bearings) (counter EmitterClass-discrete (classified bearings))
