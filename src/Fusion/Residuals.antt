-- ===== src/Fusion/Residuals.antt =====
-- packages/rfmesh-fusion/src/rfmesh_fusion/residuals.py: the differences between the measured bearings
-- and those to the solved emitter. The bearing from a node to the emitter (`atan2`) is given, in
-- microdegrees below a turn.
use rfmesh_workspace.Base.{
  ℕ, ◌+◌, ◌-◌, ◌*◌, ◌%◌, ◌<◌, ◌≤◌, ◌≡◌, refl, ap, List, [], ◌∷◌, ◌++◌, Bool, true, false, leb, ltb,
  ◌==◌, not, if◌then◌else◌, length, arith, map, append_assoc, append-nil, length-append, sym, ◌∙◌,
  Bool-cases, inl, inr, ==→eq,
}
use rfmesh_workspace.Base.Int.{ℤ, pos, negsuc, pos_part, neg_part}
use rfmesh_workspace.Base.Results.{Try, ok, err, refuse, ◌>>◌}
use rfmesh_workspace.Fusion.Bearings.{BearingReport}

-- `FusionError`
pub data ResidualError : Type 0 where
  unequal_lengths sigma_not_positive : ResidualError

pub record ResidualsResult : Type 0 where
  pub residuals : List ℤ
  pub is_outlier : List Bool
  pub contributing_node_ids : List ℕ

-- A whole turn and half of one.
abbrev pub turn : ℕ
turn = 360000000

abbrev pub half_turn : ℕ
half_turn = 180000000

-- `((diff + 180.0) % 360.0) - 180.0` of the difference a - b of two bearings below a turn.
unfoldable pub wrap_to_signed : ℕ → ℕ → ℤ
wrap_to_signed a b =
    let shifted = (a + turn + half_turn - b) % turn in
    if leb half_turn shifted then pos (shifted - half_turn) else negsuc (half_turn - shifted - 1)

-- `_OUTLIER_SIGMA_MULTIPLIER`
abbrev pub outlier_sigma_multiplier : ℕ
outlier_sigma_multiplier = 3

module _ {P X : Type 0} (predicted_azimuth : X → X → ℕ) where
  residuals_from :
      X → List (BearingReport P) → List X → ResidualsResult → Try ResidualError ResidualsResult
  residuals_from emitter [] nodes sums = ok sums
  residuals_from emitter (b ∷ bearings) [] sums = ok sums
  residuals_from emitter (b ∷ bearings) (node ∷ nodes) sums = do
    refuse (b.azimuth_sigma == 0) sigma_not_positive
    let residual = wrap_to_signed b.azimuth (predicted_azimuth emitter node)
    let off = pos_part residual + neg_part residual
    residuals_from emitter bearings nodes (record {
      residuals = sums.residuals ++ (residual ∷ []);
      is_outlier = sums.is_outlier ++ (ltb (outlier_sigma_multiplier * b.azimuth_sigma) off ∷ []);
      contributing_node_ids = sums.contributing_node_ids ++ (b.node_id ∷ []);
    })

  unfoldable pub compute_residuals :
      X → List (BearingReport P) → List X → Try ResidualError ResidualsResult
  unfolding residuals_from
  compute_residuals emitter bearings nodes = do
    refuse (not (length nodes == length bearings)) unequal_lengths
    residuals_from emitter bearings nodes
        (record { residuals = []; is_outlier = []; contributing_node_ids = [] })

-- The residual of two bearings below a turn is their difference but for a turn at most, from half a
-- turn to the left to less than half a turn to the right.
pub wrap_to_signed_bounds :
    (a b : ℕ)
    → a < turn
    → b < turn
    → (neg_part (wrap_to_signed a b) ≤ half_turn)
      × (pos_part (wrap_to_signed a b) < half_turn)
      × ((b + pos_part (wrap_to_signed a b)) % turn ≡ (a + neg_part (wrap_to_signed a b)) % turn)
unfolding wrap_to_signed
wrap_to_signed_bounds a b ha hb = ground arith

abbrev pub node_ids : {P : Type 0} → List (BearingReport P) → List ℕ
node_ids {P} bearings = map (λ (b : BearingReport P). b.node_id) bearings

module _ {P X : Type 0} (predicted_azimuth : X → X → ℕ) where
  residuals_from_ids :
      (emitter : X) (bearings : List (BearingReport P)) (nodes : List X) (sums r : ResidualsResult)
      → length nodes ≡ length bearings
      → residuals_from predicted_azimuth emitter bearings nodes sums ≡ ok r
      → (r.contributing_node_ids ≡ sums.contributing_node_ids ++ node_ids bearings)
        × (length r.residuals ≡ length sums.residuals + length bearings)
        × (length r.is_outlier ≡ length sums.is_outlier + length bearings)
  unfolding residuals_from
  residuals_from_ids emitter [] nodes sums r same h =
      let made : sums ≡ r = ok_injective sums r h in
      (
        ap (λ (q : ResidualsResult). q.contributing_node_ids) (sym made)
            ∙ sym (append-nil sums.contributing_node_ids),
        omega (arith, ap (λ (q : ResidualsResult). length q.residuals) made),
        omega (arith, ap (λ (q : ResidualsResult). length q.is_outlier) made),
      )
    where
      ok_injective :
          (a b : ResidualsResult) → Path (Try ResidualError ResidualsResult) (ok a) (ok b) → a ≡ b
      ok_injective a b e = cc
  residuals_from_ids emitter (b ∷ bearings) [] sums r same h = absurd (omega arith)
  residuals_from_ids emitter (b ∷ bearings) (node ∷ nodes) sums r same h =
      let residual = wrap_to_signed b.azimuth (predicted_azimuth emitter node) in
      let off = pos_part residual + neg_part residual in
      let flag = ltb (outlier_sigma_multiplier * b.azimuth_sigma) off in
      let next : ResidualsResult = record {
        residuals = sums.residuals ++ (residual ∷ []);
        is_outlier = sums.is_outlier ++ (flag ∷ []);
        contributing_node_ids = sums.contributing_node_ids ++ (b.node_id ∷ []);
      } in
      let passed =
        past_check (b.azimuth_sigma == 0)
          (residuals_from predicted_azimuth emitter bearings nodes next) h in
      let (ids, diffs, flags) =
        residuals_from_ids emitter bearings nodes next r (omega arith) passed in
      (
        ids ∙ append_assoc sums.contributing_node_ids (b.node_id ∷ []) (node_ids bearings),
        omega (arith, diffs, length-append sums.residuals (residual ∷ [])),
        omega (arith, flags, length-append sums.is_outlier (flag ∷ [])),
      )
    where
      past_check :
          (test : Bool) (later : Try ResidualError ResidualsResult)
          → (refuse test sigma_not_positive >> later) ≡ ok r
          → later ≡ ok r
      past_check true later e = cc
      past_check false later e = e

  -- Residuals that are computed are those of all the bearings, in their order.
  pub compute_residuals_ids :
      (emitter : X) (bearings : List (BearingReport P)) (nodes : List X) (r : ResidualsResult)
      → compute_residuals predicted_azimuth emitter bearings nodes ≡ ok r
      → (r.contributing_node_ids ≡ node_ids bearings)
        × (length r.residuals ≡ length bearings)
        × (length r.is_outlier ≡ length bearings)
  unfolding compute_residuals
  compute_residuals_ids emitter bearings nodes r h =
      elim (Bool-cases (length nodes == length bearings)) [
        | inr other ↦ absurd (raised (sym (rw other refl) ∙ h))
        | inl same ↦
            let start : ResidualsResult = record {
              residuals = [];
              is_outlier = [];
              contributing_node_ids = [];
            } in
            let found =
              residuals_from_ids emitter bearings nodes start r (==→eq _ _ same)
                (sym (rw same refl) ∙ h) in
            (found.0, omega (arith, found.1), omega (arith, found.2))
      ]
    where
      raised : Path (Try ResidualError ResidualsResult) (err unequal_lengths) (ok r) → ⊥
      raised e = cc
