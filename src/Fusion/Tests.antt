-- ===== src/Fusion/Tests.antt =====
-- The window, the consensus and the fuser at concrete inputs.
use rfmesh_workspace.Base.{
  All, ℕ, zero, suc, ◌+◌, ◌*◌, ◌%◌, ◌<◌, ◌≤◌, ◌≡◌, ◌≢◌, ◌↔◌, refl, List, [], ◌∷◌, Option, none,
  some, true, false, length, arith,
}
use rfmesh_workspace.Base.Int.{pos, pos_part, neg_part}
use rfmesh_workspace.Base.Results.{ok}
use rfmesh_workspace.Fusion.Bearings.{
  BearingReport, l2_music, l1_refused_prominence, flat, peer_link, EmitterClass, unknown, elrs,
  pole21, high, medium,
}
use rfmesh_workspace.Fusion.Window.{
  filter_to_time_window, times, twice_median, sorted, keep_near, midpoint_t_unix_ns,
}
use rfmesh_workspace.Fusion.Window.Median.{count_times, filter_to_time_window_majority}
use rfmesh_workspace.Fusion.Consensus.{
  classified, consensus_emitter_class, counter, most_common, EmitterClass-discrete,
}
use rfmesh_workspace.Fusion.Consensus.Majority.{reports_of, consensus_emitter_class_majority}
use rfmesh_workspace.Fusion.Confidence.{stansfield, stansfield_mle, compute_confidence_level}
use rfmesh_workspace.Fusion.Residuals.{
  ResidualsResult, compute_residuals, wrap_to_signed, node_ids, wrap_to_signed_bounds, half_turn,
  turn,
}
use rfmesh_workspace.Fusion.Fuser.{
  Solved, placeholder_ellipse, EllipseEnu, Solvers, FusionConfig, FixEvent, fuse, non_refusal,
  peer_count, without_peers, solve_emitter_position, choose_ellipse, ellipse_or_downgrade, fix_from,
}
use rfmesh_workspace.Fusion.Fuser.Origin.{windowed_of}
use rfmesh_workspace.Base.Floats.{to_float}
use rfmesh_workspace.Base.Bits.Length.{bit_length, bit_length_from}
use rfmesh_workspace.Fusion.Fuser.Contributors.{IsSublist, IsForeign, IsTogether, fuse_contributors}
use rfmesh_workspace.Fusion.Fuser.Honesty.{IsHonest, fuse_high, fix_from_downgraded}

abbrev report : ℕ → ℕ → Option EmitterClass → BearingReport ℕ
report node t c = record {
  node_id = node;
  t_unix_ns = t;
  node_position = node;
  azimuth = 90000000;
  azimuth_sigma = 2000000;
  method = l2_music;
  prior_kind = some flat;
  emitter_class = c;
}

abbrev reports : List (BearingReport ℕ)
reports =
    report 1 1000 (some elrs)
    ∷ report 2 9000 none
    ∷ report 3 1040 (some elrs)
    ∷ report 4 1020 (some pole21)
    ∷ record (report 5 1010 none) { prior_kind = some peer_link }
    ∷ record (report 6 1010 none) { method = l1_refused_prominence }
    ∷ []

-- Nanoseconds since 1970.
abbrev live : List (BearingReport ℕ)
live =
    report 1 1700000000000000000 (some elrs)
    ∷ report 2 1700000000900000000 none
    ∷ report 3 1700000000040000000 (some elrs)
    ∷ []

filter_to_time_window_majority_example :
    count_times 1700000000000000000 1700000000040000000 (filter_to_time_window 100000000 live)
    ≡ count_times 1700000000000000000 1700000000040000000 live
unfolding times
filter_to_time_window_majority_example =
    filter_to_time_window_majority 1700000000000000000 1700000000040000000 100000000 live
      (omega arith) (omega arith) (omega arith)

-- The first lies half the window before the median, and its float lies further from the median's.
rounded_out :
    times (
      filter_to_time_window 100000000 (
        report 1 1700000000000000010 none
        ∷ report 2 1700000000050000010 none
        ∷ report 3 1700000000050000010 none
        ∷ []))
    ≡ 1700000000050000010 ∷ 1700000000050000010 ∷ []
unfolding times filter_to_time_window twice_median sorted keep_near to_float bit_length
    bit_length_from
rounded_out = refl

elrs-ne-unknown : elrs ≢ unknown
elrs-ne-unknown e = cc

consensus_emitter_class_majority_example :
    (consensus_emitter_class reports ≡ some elrs)
    ↔ (length (classified reports) < 2 * reports_of elrs reports)
consensus_emitter_class_majority_example =
    consensus_emitter_class_majority elrs reports elrs-ne-unknown

abbrev small_ellipse : EllipseEnu
small_ellipse = record { semi_major = 900; semi_minor = 400; orientation = 7 }

-- Solvers on a line of points, with an emitter 20000 away.
abbrev solvers : Solvers ℕ ℕ ℕ
solvers = record {
  choose_enu_origin = λ ps. 0;
  to_enu = λ p origin. p;
  from_enu = λ x origin sigma. x + sigma;
  stansfield_seed = λ bearings nodes. some 19000;
  solve_mle = λ bearings nodes seed. some 20000;
  compute_covariance = λ x bearings nodes. some 5;
  zero_covariance = 0;
  is_zero = λ c. elim c [ zero ↦ true | suc k ↦ false ];
  covariance_to_ellipse = λ c. some small_ellipse;
  ray_ray_crossing = λ b x c y. none;
  pair_weight = λ b c. 1;
  weighted_centroid_of_crossings = λ found. 0;
  predicted_azimuth = λ x node. 89000000;
  compute_gdop = λ x nodes. some 2500;
  range = λ x. x;
}

abbrev config : FusionConfig
config = record { batch_window = 100; min_bearings_for_fix = 2; gdop_warn_threshold = 6000 }

abbrev fix : FixEvent ℕ ℕ
fix = record {
  t_unix_ns = 1020;
  position = 20900;
  covariance = 5;
  confidence_ellipse = small_ellipse;
  confidence_level = high;
  contributing_nodes = 1 ∷ 3 ∷ 4 ∷ [];
  residuals = pos 1000000 ∷ pos 1000000 ∷ pos 1000000 ∷ [];
  gdop = 2500;
  gdop_uncomputable = false;
  method = stansfield_mle;
  emitter_class = some elrs;
}

fused : fuse solvers config reports ≡ ok (some fix)
unfolding fuse filter_to_time_window times twice_median sorted keep_near non_refusal peer_count
    without_peers solve_emitter_position choose_ellipse ellipse_or_downgrade fix_from
    compute_residuals wrap_to_signed compute_confidence_level consensus_emitter_class classified
    counter most_common midpoint_t_unix_ns EmitterClass-discrete to_float bit_length bit_length_from
fused = refl

fuse_high_example :
    (emitter : ℕ) × (nodes : List ℕ) × (r : ResidualsResult) × (compute_residuals
        (solvers.predicted_azimuth)
        emitter
        (windowed_of config reports)
        nodes
      ≡ ok r)
    × IsHonest solvers config emitter nodes r fix
fuse_high_example = fuse_high solvers config reports fix fused refl

fuse_contributors_example :
    (used : List (BearingReport ℕ)) × IsSublist used reports
    × All IsForeign used
    × IsTogether 100 used
    × (1 ∷ 3 ∷ 4 ∷ [] ≡ node_ids used)
    × (3 ≡ length used)
    × (2 ≤ length used)
fuse_contributors_example =
    fuse_contributors solvers config reports fix fused
      (omega arith, (omega arith, (omega arith, (omega arith, (omega arith, (omega arith, tt))))))

wrap_to_signed_bounds_example :
    (neg_part (wrap_to_signed 1000 359000000) ≤ half_turn)
    × (pos_part (wrap_to_signed 1000 359000000) < half_turn)
    × ((359000000 + pos_part (wrap_to_signed 1000 359000000)) % turn
        ≡ (1000 + neg_part (wrap_to_signed 1000 359000000)) % turn)
wrap_to_signed_bounds_example = wrap_to_signed_bounds 1000 359000000 (omega arith) (omega arith)

abbrev singular : Solved ℕ ℕ
singular = record { emitter = 20000; method = stansfield_mle; covariance = 0 }

abbrev fix_downgraded : FixEvent ℕ ℕ
fix_downgraded =
    fix_from solvers config reports 0 singular
      (record { residuals = []; is_outlier = false ∷ []; contributing_node_ids = [] }) (2500, false)

fix_from_downgraded_example :
    (fix_downgraded.confidence_level ≡ medium)
    × (fix_downgraded.method ≡ stansfield)
    × (fix_downgraded.confidence_ellipse ≡ placeholder_ellipse 20000)
unfolding ellipse_or_downgrade
fix_from_downgraded_example =
    fix_from_downgraded solvers config reports 0 singular
      (record { residuals = []; is_outlier = false ∷ []; contributing_node_ids = [] }) (2500, false)
      refl refl (omega arith) (omega arith)
