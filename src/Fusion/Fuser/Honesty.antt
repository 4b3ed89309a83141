-- ===== src/Fusion/Fuser/Honesty.antt =====
-- What a fix with the highest band, and any fix, rests on.
use mathlib.Core.Path.{subst}
use rfmesh_workspace.Base.{
  ℕ, ◌*◌, ◌≤◌, ◌≡◌, refl, sym, ap, ◌∙◌, List, Option, none, some, Bool, false, ltb, if◌then◌else◌,
  arith, ◌⊎◌, inl, inr, Bool-cases,
}
use rfmesh_workspace.Base.Results.{ok}
use rfmesh_workspace.Fusion.Bearings.{BearingReport, high, medium}
use rfmesh_workspace.Fusion.Confidence.{
  Method, stansfield, stansfield_mle, fallback_centroid, is_fallback, compute_confidence_level,
}
use rfmesh_workspace.Fusion.Residuals.{ResidualsResult, compute_residuals}
use rfmesh_workspace.Fusion.Fuser.{
  EllipseEnu, Solvers, FusionConfig, FixEvent, fallback_semi, placeholder_ellipse, any, Solved,
  ellipse_or_downgrade, downgraded, by_method, choose_ellipse, gdop_or_weak, fix_from, fuse,
}
use rfmesh_workspace.Fusion.Fuser.Origin.{windowed_of, fuse_ok}

-- The gates of the highest band.
compute_confidence_level_high :
    (gdop semi range : ℕ) (outlier : Bool) (method : Method) (threshold : ℕ)
    → compute_confidence_level gdop semi range outlier method threshold ≡ high
    → (is_fallback method ≡ false)
      × (1000 ≤ range)
      × (gdop ≤ threshold)
      × (20 * semi ≤ range)
      × (outlier ≡ false)
unfolding compute_confidence_level
compute_confidence_level_high gdop semi range outlier method threshold h = ground arith

placeholder_medium :
    (gdop range : ℕ) (outlier : Bool) (threshold : ℕ)
    → 1000 ≤ range
    → gdop ≤ threshold
    → compute_confidence_level gdop (fallback_semi range) range outlier stansfield threshold
      ≡ medium
unfolding compute_confidence_level
placeholder_medium gdop range outlier threshold far weak = ground arith

module _ {X C P : Type 0} (solvers : Solvers X C P) where
  open solvers use {
    is_zero, covariance_to_ellipse, compute_gdop, range, from_enu, predicted_azimuth,
  }

  ellipse_or_downgrade-some :
      (c : C) (x : EllipseEnu)
      → ellipse_or_downgrade solvers c ≡ some x
      → (is_zero c ≡ false) × (covariance_to_ellipse c ≡ some x)
  unfolding ellipse_or_downgrade
  ellipse_or_downgrade-some c x h = elim (Bool-cases (is_zero c)) [
    | inl zeros ↦ absurd (none_some (sym (rw zeros refl) ∙ h))
    | inr more ↦ (more, sym (rw more refl) ∙ h)
  ]
    where
      none_some : Path (Option EllipseEnu) none (some x) → ⊥
      none_some e = cc

  -- An ellipse comes from the covariance, or is the placeholder.
  choose_ellipse_origin :
      (solved : Solved X C)
      → ((choose_ellipse solvers solved).0 ≡ placeholder_ellipse (range solved.emitter))
        ⊎ ((is_zero solved.covariance ≡ false)
            × (covariance_to_ellipse solved.covariance ≡ some (choose_ellipse solvers solved).0))
  unfolding choose_ellipse
  choose_ellipse_origin solved = go solved.method
    where
      kept :
          (o : Option EllipseEnu)
          → ellipse_or_downgrade solvers solved.covariance ≡ o
          → ((downgraded solvers solved o).0 ≡ placeholder_ellipse (range solved.emitter))
            ⊎ ((is_zero solved.covariance ≡ false)
                × (covariance_to_ellipse solved.covariance ≡ some (downgraded solvers solved o).0))
      kept none e = inl refl
      kept (some x) e = inr (ellipse_or_downgrade-some solved.covariance x e)

      go :
          (m : Method)
          → ((by_method solvers m solved).0 ≡ placeholder_ellipse (range solved.emitter))
            ⊎ ((is_zero solved.covariance ≡ false)
                × (covariance_to_ellipse solved.covariance ≡ some (by_method solvers m solved).0))
      go fallback_centroid = inl refl
      go stansfield = kept _ refl
      go stansfield_mle = kept _ refl

  gdop_or_weak-le :
      (threshold : ℕ) (g : Option ℕ)
      → (gdop_or_weak threshold g).0 ≤ threshold
      → g ≡ some (gdop_or_weak threshold g).0
  gdop_or_weak-le threshold none h = absurd (weak threshold h)
    where
      weak : (t : ℕ) → (if ltb (t * 10) 1000 then 1000 else t * 10) ≤ t → ⊥
      weak t h = ground arith
  gdop_or_weak-le threshold (some g) h = refl

  placeholder_wide : (range : ℕ) → 1000 ≤ range → ¬ (20 * fallback_semi range ≤ range)
  placeholder_wide range far small = ground arith

  -- What the highest band says of a fix, of its emitter and of its nodes.
  abbrev pub IsHonest : FusionConfig → X → List X → ResidualsResult → FixEvent C P → Type 0
  IsHonest config emitter nodes r fix =
      (1000 ≤ range emitter)
      × (is_zero fix.covariance ≡ false)
      × (covariance_to_ellipse fix.covariance ≡ some fix.confidence_ellipse)
      × (20 * fix.confidence_ellipse.semi_major ≤ range emitter)
      × (compute_gdop emitter nodes ≡ some fix.gdop)
      × (fix.gdop ≤ config.gdop_warn_threshold)
      × (is_fallback fix.method ≡ false)
      × (any r.is_outlier ≡ false)

  fix_from-IsHonest :
      (config : FusionConfig) (windowed : List (BearingReport P)) (origin : P) (nodes : List X)
      (solved : Solved X C) (r : ResidualsResult) (fix : FixEvent C P)
      → fix
        ≡ fix_from solvers config windowed origin solved r
            (gdop_or_weak config.gdop_warn_threshold (compute_gdop solved.emitter nodes))
      → fix.confidence_level ≡ high
      → IsHonest config solved.emitter nodes r fix
  unfolding fix_from placeholder_ellipse
  fix_from-IsHonest config windowed origin nodes solved r fix made band =
      subst (λ f. IsHonest config solved.emitter nodes r f) (sym made) honest
    where
      chosen : EllipseEnu × Method
      chosen = choose_ellipse solvers solved

      g : Option ℕ
      g = compute_gdop solved.emitter nodes

      gates :
          (is_fallback chosen.1 ≡ false)
          × (1000 ≤ range solved.emitter)
          × ((gdop_or_weak config.gdop_warn_threshold g).0 ≤ config.gdop_warn_threshold)
          × (20 * chosen.0.semi_major ≤ range solved.emitter)
          × (any r.is_outlier ≡ false)
      gates =
          compute_confidence_level_high _ _ _ _ _ _
            (sym (ap (λ (f : FixEvent C P). f.confidence_level) made) ∙ band)

      real :
          (is_zero solved.covariance ≡ false)
          × (covariance_to_ellipse solved.covariance ≡ some chosen.0)
      real = elim (choose_ellipse_origin solved) [
        | inr found ↦ found
        | inl placeholder ↦ absurd (
            placeholder_wide (range solved.emitter) gates.1 (
              subst (λ (e : EllipseEnu). 20 * e.semi_major ≤ range solved.emitter) placeholder
                gates.3))
      ]

      honest : IsHonest config solved.emitter nodes r (
          fix_from solvers config windowed origin solved r
            (gdop_or_weak config.gdop_warn_threshold g))
      honest = (
        gates.1,
        real.0,
        real.1,
        gates.3,
        gdop_or_weak-le config.gdop_warn_threshold g gates.2,
        gates.2,
        gates.0,
        gates.4,
      )

  -- A fix of the highest band has an emitter at ten metres or more. Its ellipse is the one of its own
  -- covariance, which is not the zero that stands for none, and its half-axis is a twentieth of the
  -- range at most; its dilution was computed and is within the threshold; it is not the fallback's, and
  -- none of the residuals of the bearings in the window is an outlier.
  pub fuse_high :
      (config : FusionConfig) (bearings : List (BearingReport P)) (fix : FixEvent C P)
      → fuse solvers config bearings ≡ ok (some fix)
      → fix.confidence_level ≡ high
      → (emitter : X) × (nodes : List X) × (r : ResidualsResult) × (compute_residuals
            predicted_azimuth emitter
            (windowed_of config bearings)
            nodes
          ≡ ok r)
        × IsHonest config emitter nodes r fix
  fuse_high config bearings fix h band =
      let (origin, nodes, solved, r, enough, diffs, made) = fuse_ok solvers config bearings fix h in
      (
        solved.emitter,
        nodes,
        r,
        diffs,
        fix_from-IsHonest config (windowed_of config bearings) origin nodes solved r fix made band,
      )

  choose_ellipse_downgraded :
      (solved : Solved X C)
      → is_fallback solved.method ≡ false
      → ellipse_or_downgrade solvers solved.covariance ≡ none
      → choose_ellipse solvers solved ≡ (placeholder_ellipse (range solved.emitter), stansfield)
  unfolding choose_ellipse
  choose_ellipse_downgraded solved real nowhere = go solved.method real
    where
      go :
          (m : Method)
          → is_fallback m ≡ false
          → by_method solvers m solved ≡ (placeholder_ellipse (range solved.emitter), stansfield)
      go fallback_centroid h = absurd (cc)
      go stansfield h = ap (downgraded solvers solved) nowhere
      go stansfield_mle h = ap (downgraded solvers solved) nowhere

  -- If the solved position's covariance gives no ellipse, its range is ten metres or more and the
  -- dilution is within the threshold, the fix has the placeholder's ellipse and the method of the seed,
  -- and its band is the middle one, whatever the residuals are.
  pub fix_from_downgraded :
      (config : FusionConfig) (windowed : List (BearingReport P)) (origin : P) (solved : Solved X C)
      (r : ResidualsResult) (gdop : ℕ × Bool)
      → is_fallback solved.method ≡ false
      → ellipse_or_downgrade solvers solved.covariance ≡ none
      → 1000 ≤ range solved.emitter
      → gdop.0 ≤ config.gdop_warn_threshold
      → ((fix_from solvers config windowed origin solved r gdop).confidence_level ≡ medium)
        × ((fix_from solvers config windowed origin solved r gdop).method ≡ stansfield)
        × ((fix_from solvers config windowed origin solved r gdop).confidence_ellipse
            ≡ placeholder_ellipse (range solved.emitter))
  unfolding fix_from placeholder_ellipse
  fix_from_downgraded config windowed origin solved r gdop real nowhere far weak =
      let chosen = choose_ellipse_downgraded solved real nowhere in
      (
        ap
              (λ (c : EllipseEnu × Method).
                compute_confidence_level gdop.0 c.0.semi_major (range solved.emitter)
                  (any r.is_outlier) c.1 config.gdop_warn_threshold)
              chosen
            ∙ placeholder_medium gdop.0 (range solved.emitter) (any r.is_outlier)
                config.gdop_warn_threshold far weak,
        ap (λ (c : EllipseEnu × Method). c.1) chosen,
        ap (λ (c : EllipseEnu × Method). c.0) chosen,
      )
