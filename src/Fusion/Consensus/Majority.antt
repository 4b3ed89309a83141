-- ===== src/Fusion/Consensus/Majority.antt =====
-- A class that more than half of the classifying bearings report is the consensus, and no other is.
use mathlib.Core.Path.{subst}
use mathlib.Core.Logic.{ite}
use rfmesh_workspace.Base.{
  ℕ, ◌+◌, ◌*◌, ◌<◌, ◌≤◌, ◌≡◌, refl, sym, ap, ◌∙◌, List, [], ◌∷◌, Option, some, ltb, if◌then◌else◌,
  length, arith, inl, inr, Bool-cases, ◌≢◌, ◌↔◌, true, ltb→lt,
}
use rfmesh_workspace.Fusion.Bearings.{BearingReport, EmitterClass, unknown}
use rfmesh_workspace.Fusion.Consensus.{
  count_one, count_from, counter, most_common, EmitterClass-discrete, classified, majority,
  consensus_emitter_class,
}

module _ {K : Type 0} (same : Discrete K) (c : K) where
  -- How often a key occurs.
  abbrev pub occurrences : List K → ℕ
  occurrences [] = 0
  occurrences (k ∷ ks) = ite (same k c) 1 0 + occurrences ks

  -- The count of the first entry of a key, and the counts of all its entries.
  abbrev first_count : List (K × ℕ) → ℕ
  first_count [] = 0
  first_count ((k, n) ∷ counts) = ite (same k c) n (first_count counts)

  abbrev all_counts : List (K × ℕ) → ℕ
  all_counts [] = 0
  all_counts ((k, n) ∷ counts) = ite (same k c) n 0 + all_counts counts

  counts-count_one :
      (k : K) (counts : List (K × ℕ))
      → (first_count (count_one same k counts) ≡ ite (same k c) 1 0 + first_count counts)
        × (all_counts (count_one same k counts) ≡ ite (same k c) 1 0 + all_counts counts)
  unfolding count_one
  counts-count_one k [] = ground arith
  counts-count_one k ((j, n) ∷ counts) = ground (arith, counts-count_one k counts)

  counts-count_from :
      (counts : List (K × ℕ)) (ks : List K)
      → (first_count (count_from same counts ks) ≡ first_count counts + occurrences ks)
        × (all_counts (count_from same counts ks) ≡ all_counts counts + occurrences ks)
  unfolding count_from
  counts-count_from counts [] = omega arith
  counts-count_from counts (k ∷ ks) =
      omega (arith, counts-count_one k counts, counts-count_from (count_one same k counts) ks)

  most_common-le :
      (best : K × ℕ) (counts : List (K × ℕ))
      → (best.1 ≤ (most_common best counts).1) × (first_count counts ≤ (most_common best counts).1)
  unfolding most_common
  most_common-le best [] = omega arith
  most_common-le best ((k, n) ∷ counts) =
      ground (arith, most_common-le (if ltb best.1 n then (k, n) else best) counts)

  -- The winner's count is no more than all the counts of its key.
  most_common_sound :
      (best : K × ℕ) (counts : List (K × ℕ))
      → (most_common best counts).0 ≡ c
      → (most_common best counts).1 ≤ all_counts (best ∷ counts)
  unfolding most_common
  most_common_sound best [] h = ground arith
  most_common_sound best ((k, n) ∷ counts) h =
      ground (arith, most_common_sound (if ltb best.1 n then (k, n) else best) counts)

  counter_counts :
      (ks : List K)
      → (first_count (counter same ks) ≡ occurrences ks)
        × (all_counts (counter same ks) ≡ occurrences ks)
  unfolding counter
  counter_counts ks = omega (arith, counts-count_from [] ks)

module _ {K : Type 0} (same : Discrete K) where
  occurrences-two :
      (c d : K) (ks : List K) → c ≢ d → occurrences same c ks + occurrences same d ks ≤ length ks
  occurrences-two c d [] other = omega arith
  occurrences-two c d (k ∷ ks) other = ground (arith, occurrences-two c d ks other)

abbrev pub reports_of : {P : Type 0} → EmitterClass → List (BearingReport P) → ℕ
reports_of c bearings = occurrences EmitterClass-discrete c (classified bearings)

-- The winner has at least as many reports as any class, and no more than its own.
winner_bounds :
    (c : EmitterClass) (classes : List EmitterClass) (first : EmitterClass × ℕ)
    (counts : List (EmitterClass × ℕ))
    → counter EmitterClass-discrete classes ≡ first ∷ counts
    → (occurrences EmitterClass-discrete c classes ≤ (most_common first counts).1)
      × ((most_common first counts).1
          ≤ occurrences EmitterClass-discrete (most_common first counts).0 classes)
winner_bounds c classes first counts made =
    let same = EmitterClass-discrete in
    let w = (most_common first counts).0 in
    let of_c : first_count same c (first ∷ counts) ≡ occurrences same c classes =
      ap (first_count same c) (sym made) ∙ (counter_counts same c classes).0 in
    let of_w : all_counts same w (first ∷ counts) ≡ occurrences same w classes =
      ap (all_counts same w) (sym made) ∙ (counter_counts same w classes).1 in
    let upper : first_count same c (first ∷ counts) ≤ (most_common first counts).1 =
      ground (arith, most_common-le same c first counts) in
    (omega (arith, upper, of_c), omega (arith, of_w, most_common_sound same w first counts refl))

majority_won :
    (c : EmitterClass) (classes : List EmitterClass) (counts : List (EmitterClass × ℕ))
    → counter EmitterClass-discrete classes ≡ counts
    → length classes < 2 * occurrences EmitterClass-discrete c classes
    → majority classes counts ≡ some c
unfolding majority
majority_won c classes [] made most =
    let counted = counter_counts EmitterClass-discrete c classes in
    absurd (omega (arith, counted.0, ap (first_count EmitterClass-discrete c) made))
majority_won c classes (first ∷ counts) made most =
    let same = EmitterClass-discrete in
    let w = (most_common first counts).0 in
    let bounds = winner_bounds c classes first counts made in
    let more : ltb (length classes) ((most_common first counts).1 * 2) ≡ true =
      ground (arith, bounds) in
    rw more (elim (same w c) [
      | yes e ↦ ap some e
      | no other ↦ absurd (omega (arith, bounds, occurrences-two same w c classes other))
    ])

majority_sound :
    (c : EmitterClass) (classes : List EmitterClass) (counts : List (EmitterClass × ℕ))
    → counter EmitterClass-discrete classes ≡ counts
    → majority classes counts ≡ some c
    → c ≢ unknown
    → length classes < 2 * occurrences EmitterClass-discrete c classes
unfolding majority
majority_sound c classes [] made h known = absurd (cc)
majority_sound c classes (first ∷ counts) made h known =
    let bounds = winner_bounds c classes first counts made in
    elim (Bool-cases (ltb (length classes) ((most_common first counts).1 * 2))) [
      | inr less ↦ absurd (known (sym (some_injective unknown c (sym (rw less refl) ∙ h))))
      | inl more ↦
          let same_class : (most_common first counts).0 ≡ c =
            some_injective _ c (sym (rw more refl) ∙ h) in
          let own : (most_common first counts).1 ≤ occurrences EmitterClass-discrete c classes =
            subst (λ d. (most_common first counts).1 ≤ occurrences EmitterClass-discrete d classes)
              same_class bounds.1 in
          omega (arith, ltb→lt _ _ more)
    ]
  where
    some_injective : (a b : EmitterClass) → Path (Option EmitterClass) (some a) (some b) → a ≡ b
    some_injective a b e = cc

-- The consensus is a class other than unknown exactly when more than half of the bearings that carry a
-- class report that one.
pub consensus_emitter_class_majority :
    {P : Type 0} (c : EmitterClass) (bearings : List (BearingReport P))
    → c ≢ unknown
    → (consensus_emitter_class bearings ≡ some c)
      ↔ (length (classified bearings) < 2 * reports_of c bearings)
unfolding consensus_emitter_class
consensus_emitter_class_majority c bearings known = (
  λ h. majority_sound c (classified bearings) _ refl h known,
  λ h. majority_won c (classified bearings) _ refl h,
)
