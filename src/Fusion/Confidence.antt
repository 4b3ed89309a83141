-- ===== src/Fusion/Confidence.antt =====
-- packages/rfmesh-fusion/src/rfmesh_fusion/confidence.py: the band of a fix. Lengths count in
-- centimetres and dilutions in thousandths, as whole numbers; a share of a twentieth is compared
-- exactly, where the code divides floats.
use rfmesh_workspace.Base.{ℕ, ◌*◌, Bool, true, false, leb, ltb, ◌&&◌, not, if◌then◌else◌}
use rfmesh_workspace.Fusion.Bearings.{ConfidenceLevel, high, medium, low}

-- The tags of the solver that found a fix.
pub data Method : Type 0 where
  stansfield stansfield_mle fallback_centroid : Method

abbrev pub is_fallback : Method → Bool
is_fallback fallback_centroid = true
is_fallback _ = false

-- `_MIN_RANGE_M_FOR_HIGH`: ten metres.
abbrev pub min_range_for_high : ℕ
min_range_for_high = 1000

-- The denominator of `_HIGH_BAND_RANGE_FRACTION`.
abbrev pub high_band_range_share : ℕ
high_band_range_share = 20

unfoldable pub compute_confidence_level : ℕ → ℕ → ℕ → Bool → Method → ℕ → ConfidenceLevel
compute_confidence_level gdop semi_major range is_outlier_any method gdop_warn_threshold =
    let geometry_ok = leb gdop gdop_warn_threshold in
    let ellipse_ok = leb (high_band_range_share * semi_major) range in
    let outlier_ok = not is_outlier_any in
    if is_fallback method
    then low
    else if ltb range min_range_for_high
    then low
    else if geometry_ok && ellipse_ok && outlier_ok
    then high
    else if not geometry_ok && not ellipse_ok
    then low
    else medium
