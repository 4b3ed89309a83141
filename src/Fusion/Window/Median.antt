-- ===== src/Fusion/Window/Median.antt =====
-- More than half of the bearings cannot be drawn off by the rest.
use rfmesh_workspace.Base.{
  ℕ, zero, suc, ◌+◌, ◌-◌, ◌*◌, ◌/◌, ◌%◌, ◌^◌, ◌≤◌, ◌<◌, ◌≡◌, refl, ap, ◌∙◌, List, [], ◌∷◌, Bool,
  true, false, leb, ltb, ◌==◌, if◌then◌else◌, length, arith, All, Bool-cases, inl, inr, ◌&&◌, ◌≢◌,
  ltb→lt, ==→eq, ==→ne,
}
use rfmesh_workspace.Base.Floats.{to_float, to_float_error}
use rfmesh_workspace.Fusion.Bearings.{BearingReport}
use rfmesh_workspace.Fusion.Window.{
  insert, sorted, item, twice_median, times, distance, keep_near, filter_to_time_window,
}

-- How many numbers pass a test.
abbrev pub count_of : (ℕ → Bool) → List ℕ → ℕ
count_of test [] = 0
count_of test (x ∷ xs) = (if test x then 1 else 0) + count_of test xs

count_of-insert :
    (test : ℕ → Bool) (x : ℕ) (xs : List ℕ)
    → count_of test (insert x xs) ≡ (if test x then 1 else 0) + count_of test xs
unfolding insert
count_of-insert test x [] = refl
count_of-insert test x (y ∷ ys) = elim (Bool-cases (leb x y)) [
  | inl first ↦ rw first refl
  | inr later ↦ rw later (omega (arith, count_of-insert test x ys))
]

count_of-sorted : (test : ℕ → Bool) (xs : List ℕ) → count_of test (sorted xs) ≡ count_of test xs
unfolding sorted
count_of-sorted test [] = refl
count_of-sorted test (x ∷ xs) =
    count_of-insert test x (sorted xs)
    ∙ ap (λ n. (if test x then 1 else 0) + n) (count_of-sorted test xs)

length-insert : (x : ℕ) (xs : List ℕ) → length (insert x xs) ≡ suc (length xs)
unfolding insert
length-insert x [] = refl
length-insert x (y ∷ ys) = elim (Bool-cases (leb x y)) [
  | inl first ↦ rw first refl
  | inr later ↦ rw later (ap suc (length-insert x ys))
]

length-sorted : (xs : List ℕ) → length (sorted xs) ≡ length xs
unfolding sorted
length-sorted [] = refl
length-sorted (x ∷ xs) = length-insert x (sorted xs) ∙ ap suc (length-sorted xs)

-- Every number is at most those behind it.
abbrev IsSorted : List ℕ → Type 0
IsSorted [] = Unit
IsSorted (x ∷ xs) = All (λ y. x ≤ y) xs × IsSorted xs

All-insert : (k x : ℕ) (xs : List ℕ) → k ≤ x → All (λ y. k ≤ y) xs → All (λ y. k ≤ y) (insert x xs)
unfolding insert
All-insert k x [] h hs = (h, tt)
All-insert k x (y ∷ ys) h hs = elim (Bool-cases (leb x y)) [
  | inl first ↦ rw first (h, hs)
  | inr later ↦ rw later (hs.0, All-insert k x ys h hs.1)
]

All-le : (j k : ℕ) (xs : List ℕ) → j ≤ k → All (λ y. k ≤ y) xs → All (λ y. j ≤ y) xs
All-le j k [] h hs = tt
All-le j k (x ∷ xs) h hs = (omega (arith, hs.0), All-le j k xs h hs.1)

insert-IsSorted : (x : ℕ) (xs : List ℕ) → IsSorted xs → IsSorted (insert x xs)
unfolding insert
insert-IsSorted x [] h = (tt, tt)
insert-IsSorted x (y ∷ ys) h = elim (Bool-cases (leb x y)) [
  | inl first ↦ rw first ((ground arith, All-le x y ys (ground arith) h.0), h)
  | inr later ↦ rw later (All-insert y x ys (ground arith) h.0, insert-IsSorted x ys h.1)
]

sorted-IsSorted : (xs : List ℕ) → IsSorted (sorted xs)
unfolding sorted
sorted-IsSorted [] = tt
sorted-IsSorted (x ∷ xs) = insert-IsSorted x (sorted xs) (sorted-IsSorted xs)

module _ (lo hi : ℕ) where
  abbrev pub is_inside : ℕ → Bool
  is_inside x = leb lo x && leb x hi

  count-le : (xs : List ℕ) → count_of is_inside xs ≤ length xs
  count-le [] = omega arith
  count-le (x ∷ xs) = ground (arith, count-le xs)

  count-above : (xs : List ℕ) (k : ℕ) → hi < k → All (λ y. k ≤ y) xs → count_of is_inside xs ≡ 0
  count-above [] k above h = refl
  count-above (x ∷ xs) k above h =
      let out : is_inside x ≡ false = ground (arith, h.0) in
      rw (out, count-above xs k above h.1) refl

  All-item : (x : ℕ) (xs : List ℕ) (i : ℕ) → All (λ y. x ≤ y) xs → i < length xs → x ≤ item xs i
  All-item x [] i h in_range = absurd (omega arith)
  All-item x (y ∷ ys) zero h in_range = h.0
  All-item x (y ∷ ys) (suc i) h in_range = All-item x ys i h.1 (omega arith)

  -- What stands before a number that is below `lo` is below `lo` as well.
  few_above :
      (xs : List ℕ) (i : ℕ)
      → IsSorted xs
      → i < length xs
      → item xs i < lo
      → count_of is_inside xs + i < length xs
  few_above [] i h in_range below = absurd (omega arith)
  few_above (x ∷ xs) zero h in_range below =
      let out : is_inside x ≡ false = ground arith in rw out (omega (arith, count-le xs))
  few_above (x ∷ xs) (suc i) h in_range below =
      let least : x ≤ item xs i = All-item x xs i h.0 (omega arith) in
      let out : is_inside x ≡ false = ground (arith, least) in
      let rest : count_of is_inside xs + i < length xs = few_above xs i h.1 (omega arith) below in
      rw out (omega arith)

  -- What stands behind a number that is above `hi` is above `hi` as well.
  few_below :
      (xs : List ℕ) (i : ℕ)
      → IsSorted xs
      → i < length xs
      → hi < item xs i
      → count_of is_inside xs ≤ i
  few_below [] i h in_range above = absurd (omega arith)
  few_below (x ∷ xs) zero h in_range above =
      let out : is_inside x ≡ false = ground arith in
      rw (out, count-above xs x above h.0) (omega arith)
  few_below (x ∷ xs) (suc i) h in_range above =
      ground (arith, few_below xs i h.1 (omega arith) above)

  item_bounds :
      (xs : List ℕ) (i : ℕ)
      → IsSorted xs
      → length xs < 2 * count_of is_inside xs
      → i < length xs
      → (length xs ≤ 2 * (i + 1) → lo ≤ item xs i) × (2 * i ≤ length xs → item xs i ≤ hi)
  item_bounds xs i ordered most in_range = (
    λ h. elim (Bool-cases (ltb (item xs i) lo)) [
      | inl below ↦
          absurd (omega (arith, few_above xs i ordered in_range (ltb→lt (item xs i) lo below)))
      | inr at_least ↦ ground arith
    ],
    λ h. elim (Bool-cases (ltb hi (item xs i))) [
      | inl above ↦
          absurd (omega (arith, few_below xs i ordered in_range (ltb→lt hi (item xs i) above)))
      | inr at_most ↦ ground arith
    ],
  )

  sorted_bounds :
      (xs : List ℕ) (i : ℕ)
      → length xs < 2 * count_of is_inside xs
      → i < length xs
      → length xs ≤ 2 * (i + 1)
      → 2 * i ≤ length xs
      → (lo ≤ item (sorted xs) i) × (item (sorted xs) i ≤ hi)
  sorted_bounds xs i most in_range from_below from_above =
      let size : length (sorted xs) ≡ length xs = length-sorted xs in
      let count : count_of is_inside (sorted xs) ≡ count_of is_inside xs =
        count_of-sorted is_inside xs in
      let bounds = item_bounds (sorted xs) i (sorted-IsSorted xs) (omega arith) (omega arith) in
      (bounds.0 (omega arith), bounds.1 (omega arith))

  -- If more than half of the numbers lie between two bounds, so does the median.
  pub twice_median_bounds :
      (xs : List ℕ)
      → length xs < 2 * count_of is_inside xs
      → (2 * lo ≤ twice_median xs) × (twice_median xs ≤ 2 * hi)
  unfolding twice_median
  twice_median_bounds xs most =
      let n = length xs in
      let some_there : 0 < n = omega (arith, count-le xs) in
      elim (Bool-cases (n % 2 == 1)) [
        | inl odd ↦
            let rest : n % 2 ≡ 1 = ==→eq (n % 2) 1 odd in
            rw odd (
              omega
                (arith, sorted_bounds xs (n / 2) most (omega arith) (omega arith) (omega arith)))
        | inr even ↦
            let rest : n % 2 ≢ 1 = ==→ne (n % 2) 1 even in
            rw even (
              omega (
                arith,
                sorted_bounds xs (n / 2 - 1) most (omega arith) (omega arith) (omega arith),
                sorted_bounds xs (n / 2) most (omega arith) (omega arith) (omega arith),
              ))
      ]

le→leb : (a b : ℕ) → a ≤ b → leb a b ≡ true
le→leb a b h = ground arith

-- Two numbers that are near stay near as floats.
pub distance_error :
    (a b : ℕ)
    → a < 2 ^ 63
    → b < 2 ^ 63
    → (distance (to_float a) (to_float b) ≤ distance a b + 1024)
      × (distance a b ≤ distance (to_float a) (to_float b) + 1024)
distance_error a b small_a small_b =
    ground (arith, to_float_error a small_a, to_float_error b small_b)

kept_near :
    (lo hi twice window t : ℕ)
    → 2 * lo ≤ twice
    → twice ≤ 2 * hi
    → hi + 512 < 2 ^ 62
    → 2 * (hi - lo) + 1536 ≤ window
    → is_inside lo hi t ≡ true
    → leb (to_float (distance (to_float (2 * t)) (to_float twice))) window ≡ true
kept_near lo hi twice window t low high small wide inside =
    let apart : distance (2 * t) twice ≤ 2 * (hi - lo) = ground (arith, inside) in
    let below : 2 * t < 2 ^ 63 = ground (arith, inside) in
    let floats = distance_error (2 * t) twice below (omega arith) in
    let rounded =
      to_float_error (distance (to_float (2 * t)) (to_float twice)) (omega (arith, floats.0)) in
    le→leb _ _ (omega (arith, rounded.0, floats.0))

-- The reports whose times lie between two bounds.
abbrev pub count_times : {P : Type 0} → ℕ → ℕ → List (BearingReport P) → ℕ
count_times lo hi bearings = count_of (is_inside lo hi) (times bearings)

module _ {P : Type 0} where
  pub length-times : (bearings : List (BearingReport P)) → length (times bearings) ≡ length bearings
  unfolding times
  length-times [] = refl
  length-times (b ∷ bearings) = ap suc (length-times bearings)

  keep_near-count :
      (lo hi twice window : ℕ) (bearings : List (BearingReport P))
      → 2 * lo ≤ twice
      → twice ≤ 2 * hi
      → hi + 512 < 2 ^ 62
      → 2 * (hi - lo) + 1536 ≤ window
      → count_times lo hi (keep_near (to_float twice) window bearings) ≡ count_times lo hi bearings
  unfolding keep_near times
  keep_near-count lo hi twice window [] low high small wide = refl
  keep_near-count lo hi twice window (b ∷ bearings) low high small wide =
      let rest = keep_near-count lo hi twice window bearings low high small wide in
      elim (Bool-cases (is_inside lo hi b.t_unix_ns)) [
        | inl inside ↦
            let near = kept_near lo hi twice window b.t_unix_ns low high small wide inside in
            rw (near, inside) (omega (arith, rest))
        | inr outside ↦
            elim (Bool-cases
              (leb (to_float (distance (to_float (2 * b.t_unix_ns)) (to_float twice))) window)) [
                | inl near ↦ rw (near, outside) (omega (arith, rest))
                | inr far ↦ rw (far, outside) (omega (arith, rest))
              ]
      ]

  -- If more than half of the bearings lie in a span of time before the year 2116 that is shorter than
  -- half the window by 768 nanoseconds or more, which the rounding of times to floats may take, none of
  -- them is dropped, whatever the times of the others are.
  pub filter_to_time_window_majority :
      (lo hi window : ℕ) (bearings : List (BearingReport P))
      → length bearings < 2 * count_times lo hi bearings
      → hi + 512 < 2 ^ 62
      → 2 * (hi - lo) + 1536 ≤ window
      → count_times lo hi (filter_to_time_window window bearings) ≡ count_times lo hi bearings
  unfolding filter_to_time_window
  filter_to_time_window_majority lo hi window bearings most small wide =
      let bounds =
        twice_median_bounds lo hi (times bearings) (omega (arith, length-times bearings)) in
      keep_near-count lo hi (twice_median (times bearings)) window bearings bounds.0 bounds.1 small
        wide
