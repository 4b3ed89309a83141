-- ===== src/Fusion/Fuser.antt =====
-- packages/rfmesh-fusion/src/rfmesh_fusion/fuser.py: from a batch of bearings to a fix. The solvers work
-- on floats and are given: a point in the plane is an X, a covariance a C, a position on the earth a P,
-- and where one raises its error, its value is `none`. Lengths count in centimetres.
pub mod Origin
pub mod Honesty
pub mod Contributors
use rfmesh_workspace.Base.{
  ℕ, zero, suc, ◌+◌, ◌*◌, ◌/◌, List, [], ◌∷◌, ◌++◌, Option, none, some, Bool, true, false, leb, ltb,
  ◌==◌, ◌&&◌, ◌||◌, not, if◌then◌else◌, length, map,
}
use rfmesh_workspace.Base.Int.{ℤ}
use rfmesh_workspace.Base.Results.{Try, ok, err, refuse, ◌>>◌, ◌>>=◌}
use rfmesh_workspace.Fusion.Bearings.{
  BearingReport, is_refused, is_peer_link, EmitterClass, ConfidenceLevel,
}
use rfmesh_workspace.Fusion.Window.{filter_to_time_window, midpoint_t_unix_ns}
use rfmesh_workspace.Fusion.Consensus.{consensus_emitter_class}
use rfmesh_workspace.Fusion.Confidence.{
  Method, stansfield, stansfield_mle, fallback_centroid, compute_confidence_level,
}
use rfmesh_workspace.Fusion.Residuals.{ResidualError, ResidualsResult, compute_residuals}

pub record EllipseEnu : Type 0 where
  pub semi_major : ℕ
  pub semi_minor : ℕ
  pub orientation : ℕ

pub record Solvers (X C P : Type 0) : Type 0 where
  pub choose_enu_origin : List P → P
  pub to_enu : P → P → X
  pub from_enu : X → P → ℕ → P
  pub stansfield_seed : List (BearingReport P) → List X → Option X
  pub solve_mle : List (BearingReport P) → List X → X → Option X
  pub compute_covariance : X → List (BearingReport P) → List X → Option C
  pub zero_covariance : C
  pub is_zero : C → Bool
  pub covariance_to_ellipse : C → Option EllipseEnu
  pub ray_ray_crossing : BearingReport P → X → BearingReport P → X → Option X
  pub pair_weight : BearingReport P → BearingReport P → ℕ
  pub weighted_centroid_of_crossings : List (X × ℕ) → X
  pub predicted_azimuth : X → X → ℕ
  pub compute_gdop : X → List X → Option ℕ
  pub range : X → ℕ

pub record FusionConfig : Type 0 where
  pub batch_window : ℕ
  pub min_bearings_for_fix : ℕ
  pub gdop_warn_threshold : ℕ

pub record FixEvent (C P : Type 0) : Type 0 where
  pub t_unix_ns : ℕ
  pub position : P
  pub covariance : C
  pub confidence_ellipse : EllipseEnu
  pub confidence_level : ConfidenceLevel
  pub contributing_nodes : List ℕ
  pub residuals : List ℤ
  pub gdop : ℕ
  pub gdop_uncomputable : Bool
  pub method : Method
  pub emitter_class : Option EmitterClass

pub data FuseError : Type 0 where
  only_peer_links : FuseError
  residual_error : ResidualError → FuseError

abbrev pub from_residuals : Try ResidualError ResidualsResult → Try FuseError ResidualsResult
from_residuals (err e) = err (residual_error e)
from_residuals (ok r) = ok r

module _ {P : Type 0} where
  -- The reports that are not refusals, how many of them are on a peer link, and the others.
  unfoldable pub non_refusal : List (BearingReport P) → List (BearingReport P)
  non_refusal [] = []
  non_refusal (b ∷ bearings) =
      let rest = non_refusal bearings in if is_refused b.method then rest else b ∷ rest

  unfoldable pub peer_count : List (BearingReport P) → ℕ
  peer_count [] = 0
  peer_count (b ∷ bearings) = (if is_peer_link b.prior_kind then 1 else 0) + peer_count bearings

  unfoldable pub without_peers : List (BearingReport P) → List (BearingReport P)
  without_peers [] = []
  without_peers (b ∷ bearings) =
      let rest = without_peers bearings in if is_peer_link b.prior_kind then rest else b ∷ rest

  abbrev pub positions : List (BearingReport P) → List P
  positions bearings = map (λ (b : BearingReport P). b.node_position) bearings

-- `max(fraction * range, _MIN_FALLBACK_SEMI_M)`, a half and one metre.
abbrev pub fallback_semi : ℕ → ℕ
fallback_semi range = if ltb (range / 2) 100 then 100 else range / 2

-- `_placeholder_ellipse` at a range.
unfoldable pub placeholder_ellipse : ℕ → EllipseEnu
placeholder_ellipse range = record {
  semi_major = fallback_semi range;
  semi_minor = fallback_semi range;
  orientation = 0;
}

abbrev pub any : List Bool → Bool
any [] = false
any (b ∷ bs) = b || any bs

module _ {X C P : Type 0} (solvers : Solvers X C P) where
  open solvers use {ray_ray_crossing, pair_weight, weighted_centroid_of_crossings}

  -- The crossings of one bearing with those behind it.
  crossings_with : BearingReport P → X → List (BearingReport P) → List X → List (X × ℕ)
  crossings_with b node [] nodes = []
  crossings_with b node (c ∷ bearings) [] = []
  crossings_with b node (c ∷ bearings) (other ∷ nodes) =
      let rest = crossings_with b node bearings nodes in
      elim (ray_ray_crossing b node c other) [ none ↦ rest | some x ↦ (x, pair_weight b c) ∷ rest ]

  crossings : List (BearingReport P) → List X → List (X × ℕ)
  crossings [] nodes = []
  crossings (b ∷ bearings) [] = []
  crossings (b ∷ bearings) (node ∷ nodes) =
      crossings_with b node bearings nodes ++ crossings bearings nodes

  centroid_of : List (X × ℕ) → Option X
  centroid_of [] = none
  centroid_of (c ∷ found) = some (weighted_centroid_of_crossings (c ∷ found))

  -- `_fallback_centroid`
  unfoldable pub fallback_centroid_of : List (BearingReport P) → List X → Option X
  unfolding crossings crossings_with centroid_of
  fallback_centroid_of bearings nodes = centroid_of (crossings bearings nodes)

-- The dilution, or a value past the threshold where it cannot be computed.
abbrev pub gdop_or_weak : ℕ → Option ℕ → ℕ × Bool
gdop_or_weak threshold none = (if ltb (threshold * 10) 1000 then 1000 else threshold * 10, true)
gdop_or_weak threshold (some g) = (g, false)

-- `_solve_emitter_position` behind its first, second and third solver.
pub record Solved (X C : Type 0) : Type 0 where
  pub emitter : X
  pub method : Method
  pub covariance : C

module _ {X C P : Type 0} (solvers : Solvers X C P) where
  open solvers use {
    choose_enu_origin, to_enu, from_enu, stansfield_seed, solve_mle, compute_covariance,
    zero_covariance, is_zero, covariance_to_ellipse, predicted_azimuth, compute_gdop, range,
  }

  abbrev pub refined : X → Option X → X × Method
  refined seed none = (seed, stansfield)
  refined seed (some x) = (x, stansfield_mle)

  abbrev pub with_covariance : X × Method → Option C → Solved X C
  with_covariance (x, method) none = record {
    emitter = x;
    method = stansfield;
    covariance = zero_covariance;
  }
  with_covariance (x, method) (some c) = record { emitter = x; method = method; covariance = c }

  solve_from : List (BearingReport P) → List X → Option X → Option (Solved X C)
  solve_from bearings nodes none = elim (fallback_centroid_of solvers bearings nodes) [
    | none ↦ none
    | some x ↦
        some (record { emitter = x; method = fallback_centroid; covariance = zero_covariance })
  ]
  solve_from bearings nodes (some seed) =
      let start = refined seed (solve_mle bearings nodes seed) in
      some (with_covariance start (compute_covariance start.0 bearings nodes))

  -- `_solve_emitter_position`; without an emitter there is no fix.
  unfoldable pub solve_emitter_position : List (BearingReport P) → List X → Option (Solved X C)
  unfolding solve_from
  solve_emitter_position bearings nodes = solve_from bearings nodes (stansfield_seed bearings nodes)

  -- `_ellipse_or_downgrade`
  unfoldable pub ellipse_or_downgrade : C → Option EllipseEnu
  ellipse_or_downgrade c = if is_zero c then none else covariance_to_ellipse c

  -- The ellipse of a fix, and the method that goes with it.
  downgraded : Solved X C → Option EllipseEnu → EllipseEnu × Method
  downgraded solved none = (placeholder_ellipse (range solved.emitter), stansfield)
  downgraded solved (some ellipse) = (ellipse, solved.method)

  by_method : Method → Solved X C → EllipseEnu × Method
  unfolding downgraded
  by_method fallback_centroid solved =
      (placeholder_ellipse (range solved.emitter), fallback_centroid)
  by_method stansfield solved = downgraded solved (ellipse_or_downgrade solved.covariance)
  by_method stansfield_mle solved = downgraded solved (ellipse_or_downgrade solved.covariance)

  unfoldable pub choose_ellipse : Solved X C → EllipseEnu × Method
  unfolding by_method
  choose_ellipse solved = by_method solved.method solved

  -- The fix of a position, of its residuals and of its dilution.
  unfoldable pub fix_from :
      FusionConfig
      → List (BearingReport P)
      → P
      → Solved X C
      → ResidualsResult
      → ℕ × Bool
      → FixEvent C P
  fix_from config windowed origin solved residuals gdop =
      let chosen = choose_ellipse solved in
      record {
        t_unix_ns = midpoint_t_unix_ns windowed;
        position = from_enu solved.emitter origin chosen.0.semi_major;
        covariance = solved.covariance;
        confidence_ellipse = chosen.0;
        confidence_level =
            compute_confidence_level gdop.0 chosen.0.semi_major (range solved.emitter)
              (any residuals.is_outlier) chosen.1 config.gdop_warn_threshold;
        contributing_nodes = residuals.contributing_node_ids;
        residuals = residuals.residuals;
        gdop = gdop.0;
        gdop_uncomputable = gdop.1;
        method = chosen.1;
        emitter_class = consensus_emitter_class windowed;
      }

  make_fix :
      FusionConfig → List (BearingReport P) → P → List X → Solved X C → Try FuseError (FixEvent C P)
  make_fix config windowed origin nodes solved = do
    residuals ← from_residuals (compute_residuals predicted_azimuth solved.emitter windowed nodes)
    ok (
        fix_from config windowed origin solved residuals
          (gdop_or_weak config.gdop_warn_threshold (compute_gdop solved.emitter nodes)))

  fix_of :
      FusionConfig
      → List (BearingReport P)
      → P
      → List X
      → Option (Solved X C)
      → Try FuseError (Option (FixEvent C P))
  unfolding make_fix
  fix_of config windowed origin nodes none = ok none
  fix_of config windowed origin nodes (some solved) = do
    fix ← make_fix config windowed origin nodes solved
    ok (some fix)

  -- `fuse` of the bearings inside the window.
  fuse_windowed : FusionConfig → List (BearingReport P) → Try FuseError (Option (FixEvent C P))
  unfolding fix_of
  fuse_windowed config windowed =
      let origin = choose_enu_origin (positions windowed) in
      let nodes = map (λ p. to_enu p origin) (positions windowed) in
      if ltb (length windowed) config.min_bearings_for_fix
      then ok none
      else fix_of config windowed origin nodes (solve_emitter_position windowed nodes)

  unfoldable pub fuse :
      FusionConfig → List (BearingReport P) → Try FuseError (Option (FixEvent C P))
  unfolding fuse_windowed
  fuse config bearings =
      let kept = without_peers (non_refusal bearings) in
      refuse (length kept == 0 && not (peer_count (non_refusal bearings) == 0)) only_peer_links
      >> fuse_windowed config (filter_to_time_window config.batch_window kept)
