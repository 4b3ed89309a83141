-- ===== src/Fusion/Fuser/Contributors.antt =====
-- The bearings that a fix is made of.
use mathlib.Core.Path.{subst}
use rfmesh_workspace.Base.{
  ℕ, ◌+◌, ◌-◌, ◌*◌, ◌^◌, ◌≤◌, ◌<◌, ◌≡◌, ◌≢◌, ◌⊎◌, inl, inr, refl, sym, ap, ◌∙◌, List, [], ◌∷◌,
  Option, some, true, false, leb, length, arith, Bool-cases, All, leb→le,
}
use rfmesh_workspace.Base.Floats.{to_float, to_float_error}
use rfmesh_workspace.Base.Results.{ok}
use rfmesh_workspace.Fusion.Bearings.{
  BearingReport, Capability, l1_refused_prominence, BearingPriorKind, peer_link, is_refused,
  is_peer_link,
}
use rfmesh_workspace.Fusion.Window.{
  distance, times, twice_median, sorted, keep_near, filter_to_time_window,
}
use rfmesh_workspace.Fusion.Window.Median.{distance_error, count_of, is_inside, twice_median_bounds}
use rfmesh_workspace.Fusion.Residuals.{compute_residuals_ids, node_ids}
use rfmesh_workspace.Fusion.Fuser.{
  Solvers, FusionConfig, FixEvent, non_refusal, without_peers, fix_from, fuse,
}
use rfmesh_workspace.Fusion.Fuser.Origin.{windowed_of, fuse_ok}

-- Some of the elements of a list, in its order.
unfoldable pub IsSublist : {A : Type 0} → List A → List A → Type 0
IsSublist xs [] = xs ≡ []
IsSublist {A} xs (y ∷ ys) =
    IsSublist xs ys ⊎ ((rest : List A) × (xs ≡ y ∷ rest) × IsSublist rest ys)

IsSublist-trans :
    {A : Type 0} (xs ys zs : List A) → IsSublist xs ys → IsSublist ys zs → IsSublist xs zs
unfolding IsSublist
IsSublist-trans xs ys [] h k = subst (λ t. IsSublist xs t) k h
IsSublist-trans xs ys (z ∷ zs) h (inl below) = inl (IsSublist-trans xs ys zs h below)
IsSublist-trans xs ys (z ∷ zs) h (inr (rest, e, below)) = elim (subst (λ t. IsSublist xs t) e h) [
  | inl before ↦ inl (IsSublist-trans xs rest zs before below)
  | inr (more, same, before) ↦ inr (more, same, IsSublist-trans more rest zs before below)
]

All-IsSublist :
    {A : Type 0} (Q : A → Type 0) (xs ys : List A) → IsSublist xs ys → All Q ys → All Q xs
unfolding IsSublist
All-IsSublist Q xs [] h q = subst (All Q) (sym h) tt
All-IsSublist Q xs (y ∷ ys) (inl later) q = All-IsSublist Q xs ys later q.1
All-IsSublist Q xs (y ∷ ys) (inr (rest, e, more)) q =
    subst (All Q) (sym e) (q.0, All-IsSublist Q rest ys more q.1)

-- No refusal, and not on a peer link.
abbrev pub IsForeign : {P : Type 0} → BearingReport P → Type 0
IsForeign b = (b.method ≢ l1_refused_prominence) × (b.prior_kind ≢ some peer_link)

-- Times that a window of so many nanoseconds holds, and what the rounding of times may add.
abbrev pub IsTogether : {P : Type 0} → ℕ → List (BearingReport P) → Type 0
IsTogether window bearings =
    All (λ b. All (λ c. distance b.t_unix_ns c.t_unix_ns ≤ window + 1024) bearings) bearings

not_refused : (k : Capability) → is_refused k ≡ false → k ≢ l1_refused_prominence
not_refused k h e = absurd (cc (ap is_refused e))

not_peer : (k : Option BearingPriorKind) → is_peer_link k ≡ false → k ≢ some peer_link
not_peer k h e = absurd (cc (ap is_peer_link e))

-- A time before the year 2116.
abbrev pub IsSmall : ℕ → Type 0
IsSmall t = t + 512 < 2 ^ 62

abbrev last : ℕ
last = 2 ^ 62 - 513

count_of-IsSmall : (xs : List ℕ) → All IsSmall xs → count_of (is_inside 0 last) xs ≡ length xs
count_of-IsSmall [] h = refl
count_of-IsSmall (x ∷ xs) h =
    let inside : is_inside 0 last x ≡ true = ground (arith, h.0) in
    rw (inside) (omega (arith, count_of-IsSmall xs h.1))

median-lt : (xs : List ℕ) → All IsSmall xs → to_float (twice_median xs) < 2 ^ 63
unfolding twice_median sorted
median-lt [] h = omega (arith, to_float_error 0 (omega arith))
median-lt (x ∷ xs) h =
    let bounds = twice_median_bounds 0 last (x ∷ xs) (omega (arith, count_of-IsSmall (x ∷ xs) h)) in
    omega (arith, bounds.1, to_float_error (twice_median (x ∷ xs)) (omega (arith, bounds.1)))

kept-le :
    (t median window : ℕ)
    → IsSmall t
    → median < 2 ^ 63
    → to_float (distance (to_float (2 * t)) median) ≤ window
    → distance (to_float (2 * t)) median ≤ window + 512
kept-le t median window small low near =
    let rounded = to_float_error (2 * t) (omega arith) in
    let below : distance (to_float (2 * t)) median < 2 ^ 63 = ground (arith, rounded.0) in
    omega (arith, to_float_error _ below)

pair-le :
    (s t median window : ℕ)
    → IsSmall s
    → IsSmall t
    → distance (to_float (2 * s)) median ≤ window + 512
    → distance (to_float (2 * t)) median ≤ window + 512
    → distance s t ≤ window + 1024
pair-le s t median window small_s small_t near_s near_t =
    let floats = distance_error (2 * s) (2 * t) (omega arith) (omega arith) in
    ground (arith, floats.1)

All-both :
    {A : Type 0} (Q R : A → Type 0) (xs : List A) → All Q xs → All R xs → All (λ x. Q x × R x) xs
All-both Q R [] q r = tt
All-both Q R (x ∷ xs) q r = ((q.0, r.0), All-both Q R xs q.1 r.1)

All-map :
    {A : Type 0} (Q R : A → Type 0) (xs : List A) → ((x : A) → Q x → R x) → All Q xs → All R xs
All-map Q R [] f q = tt
All-map Q R (x ∷ xs) f q = (f x q.0, All-map Q R xs f q.1)

module _ {P : Type 0} where
  All-times :
      (bearings : List (BearingReport P))
      → All (λ b. IsSmall b.t_unix_ns) bearings
      → All IsSmall (times bearings)
  unfolding times
  All-times [] h = tt
  All-times (b ∷ bearings) h = (h.0, All-times bearings h.1)

  non_refusal-IsSublist :
      (bearings : List (BearingReport P))
      → IsSublist (non_refusal bearings) bearings
        × All (λ b. b.method ≢ l1_refused_prominence) (non_refusal bearings)
  unfolding non_refusal IsSublist
  non_refusal-IsSublist [] = (refl, tt)
  non_refusal-IsSublist (b ∷ bearings) =
      let rest = non_refusal-IsSublist bearings in
      elim (Bool-cases (is_refused b.method)) [
        | inl refused ↦ rw (refused) (inl rest.0, rest.1)
        | inr kept ↦ rw (kept) (inr (_, refl, rest.0), (not_refused b.method kept, rest.1))
      ]

  without_peers-IsSublist :
      (bearings : List (BearingReport P))
      → IsSublist (without_peers bearings) bearings
        × All (λ b. b.prior_kind ≢ some peer_link) (without_peers bearings)
  unfolding without_peers IsSublist
  without_peers-IsSublist [] = (refl, tt)
  without_peers-IsSublist (b ∷ bearings) =
      let rest = without_peers-IsSublist bearings in
      elim (Bool-cases (is_peer_link b.prior_kind)) [
        | inl peer ↦ rw (peer) (inl rest.0, rest.1)
        | inr kept ↦ rw (kept) (inr (_, refl, rest.0), (not_peer b.prior_kind kept, rest.1))
      ]

  -- How far a kept time, as a float, lies from the middle.
  keep_near-IsSublist :
      (median window : ℕ) (bearings : List (BearingReport P))
      → IsSublist (keep_near median window bearings) bearings
        × All
            (λ b. to_float (distance (to_float (2 * b.t_unix_ns)) median) ≤ window)
            (keep_near median window bearings)
  unfolding keep_near IsSublist
  keep_near-IsSublist median window [] = (refl, tt)
  keep_near-IsSublist median window (b ∷ bearings) =
      let rest = keep_near-IsSublist median window bearings in
      elim (Bool-cases (leb (to_float (distance (to_float (2 * b.t_unix_ns)) median)) window)) [
        | inl near ↦ rw (near) (inr (_, refl, rest.0), (leb→le _ _ near, rest.1))
        | inr far ↦ rw (far) (inl rest.0, rest.1)
      ]

  -- What stays in the window, with times before the year 2116.
  filter_to_time_window-IsTogether :
      (window : ℕ) (bearings : List (BearingReport P))
      → All (λ b. IsSmall b.t_unix_ns) bearings
      → IsSublist (filter_to_time_window window bearings) bearings
        × IsTogether window (filter_to_time_window window bearings)
  unfolding filter_to_time_window
  filter_to_time_window-IsTogether window bearings small =
      let median = to_float (twice_median (times bearings)) in
      let low : median < 2 ^ 63 = median-lt (times bearings) (All-times bearings small) in
      let kept = keep_near median window bearings in
      let (part, near) = keep_near-IsSublist median window bearings in
      let small_kept = All-IsSublist (λ b. IsSmall b.t_unix_ns) kept bearings part small in
      let both : All
          (λ b. IsSmall b.t_unix_ns × (distance (to_float (2 * b.t_unix_ns)) median ≤ window + 512))
          kept =
        All-map _ _ kept (λ b h. (h.0, kept-le b.t_unix_ns median window h.0 low h.1))
          (All-both _ _ kept small_kept near) in
      (
        part,
        All-map _ _ kept
            (λ b hb.
              All-map _ _ kept
                (λ c hc. pair-le b.t_unix_ns c.t_unix_ns median window hb.0 hc.0 hb.1 hc.1) both)
            both,
      )

module _ {X C P : Type 0} (solvers : Solvers X C P) where
  open solvers use {predicted_azimuth}

  -- If all times lie before the year 2116, a fix lists the nodes of some of the given bearings, in their
  -- order, with a residual for each, and they are as many as a fix needs. None of these bearings is a
  -- refusal or on a peer link, and the times of any two of them differ by the window at most, but for 1024
  -- nanoseconds that the rounding of times to floats may take.
  pub fuse_contributors :
      (config : FusionConfig) (bearings : List (BearingReport P)) (fix : FixEvent C P)
      → fuse solvers config bearings ≡ ok (some fix)
      → All (λ b. IsSmall b.t_unix_ns) bearings
      → (used : List (BearingReport P)) × IsSublist used bearings
        × All IsForeign used
        × IsTogether config.batch_window used
        × (fix.contributing_nodes ≡ node_ids used)
        × (length fix.residuals ≡ length used)
        × (config.min_bearings_for_fix ≤ length used)
  unfolding fix_from
  fuse_contributors config bearings fix h small =
      let (origin, nodes, solved, r, enough, diffs, made) = fuse_ok solvers config bearings fix h in
      let used = windowed_of config bearings in
      let (ids, count, flags) =
        compute_residuals_ids predicted_azimuth solved.emitter used nodes r diffs in
      let plain = non_refusal bearings in
      let own = without_peers plain in
      let (plain_part, answers) = non_refusal-IsSublist bearings in
      let (own_part, unlinked) = without_peers-IsSublist plain in
      let own_all = IsSublist-trans own plain bearings own_part plain_part in
      let (used_part, together) =
        filter_to_time_window-IsTogether config.batch_window own
          (All-IsSublist (λ b. IsSmall b.t_unix_ns) own bearings own_all small) in
      (
        used,
        IsSublist-trans used own bearings used_part own_all,
        All-IsSublist IsForeign used own used_part (
            All-both _ _ own
              (All-IsSublist (λ b. b.method ≢ l1_refused_prominence) own plain own_part answers)
              unlinked),
        together,
        ap (λ (f : FixEvent C P). f.contributing_nodes) made ∙ ids,
        omega (arith, ap (λ (f : FixEvent C P). length f.residuals) made, count),
        enough,
      )
