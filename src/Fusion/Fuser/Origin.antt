-- ===== src/Fusion/Fuser/Origin.antt =====
-- What a fix is put together from.
use rfmesh_workspace.Base.{
  ℕ, ◌≤◌, ◌≡◌, refl, sym, ◌∙◌, List, Option, none, some, Bool, true, false, ltb, length, map, arith,
  inl, inr, Bool-cases,
}
use rfmesh_workspace.Base.Results.{Try, ok, err, refuse, ◌>>◌, ◌>>=◌, >>=-eq-ok}
use rfmesh_workspace.Fusion.Bearings.{BearingReport}
use rfmesh_workspace.Fusion.Window.{filter_to_time_window}
use rfmesh_workspace.Fusion.Residuals.{ResidualError, ResidualsResult, compute_residuals}
use rfmesh_workspace.Fusion.Fuser.{
  Solvers, FusionConfig, FixEvent, FuseError, from_residuals, non_refusal, without_peers, Solved,
  solve_emitter_position, gdop_or_weak, fix_from, make_fix, fix_of, positions, fuse_windowed, fuse,
  only_peer_links,
}

-- The bearings that a fix is made of.
abbrev pub windowed_of :
    {P : Type 0} → FusionConfig → List (BearingReport P) → List (BearingReport P)
windowed_of config bearings =
    filter_to_time_window config.batch_window (without_peers (non_refusal bearings))

module _ {X C P : Type 0} (solvers : Solvers X C P) where
  open solvers use {
    is_zero, covariance_to_ellipse, compute_gdop, range, from_enu, predicted_azimuth,
  }

  -- What `make_fix` put together, if it did not raise.
  make_fix_ok :
      (config : FusionConfig) (windowed : List (BearingReport P)) (origin : P) (nodes : List X)
      (solved : Solved X C) (fix : FixEvent C P)
      → make_fix solvers config windowed origin nodes solved ≡ ok fix
      → (r : ResidualsResult) × (compute_residuals predicted_azimuth solved.emitter windowed nodes
          ≡ ok r)
        × (fix
            ≡ fix_from solvers config windowed origin solved r
                (gdop_or_weak config.gdop_warn_threshold (compute_gdop solved.emitter nodes)))
  unfolding make_fix
  make_fix_ok config windowed origin nodes solved fix h =
      go (compute_residuals predicted_azimuth solved.emitter windowed nodes) refl h
    where
      gdop : ℕ × Bool
      gdop = gdop_or_weak config.gdop_warn_threshold (compute_gdop solved.emitter nodes)

      made : ResidualsResult → FixEvent C P
      made r = fix_from solvers config windowed origin solved r gdop

      go :
          (found : Try ResidualError ResidualsResult)
          → compute_residuals predicted_azimuth solved.emitter windowed nodes ≡ found
          → (from_residuals found >>= λ r. ok (made r)) ≡ ok fix
          → (r : ResidualsResult) × (compute_residuals predicted_azimuth solved.emitter windowed
                nodes
              ≡ ok r)
            × (fix ≡ made r)
      go (err e) same k = absurd (cc)
      go (ok r) same k = (r, same, cc)

  fix_of_ok :
      (config : FusionConfig) (windowed : List (BearingReport P)) (origin : P) (nodes : List X)
      (o : Option (Solved X C)) (fix : FixEvent C P)
      → fix_of solvers config windowed origin nodes o ≡ ok (some fix)
      → (solved : Solved X C) × (r : ResidualsResult) × (compute_residuals predicted_azimuth
            solved.emitter windowed nodes
          ≡ ok r)
        × (fix
            ≡ fix_from solvers config windowed origin solved r
                (gdop_or_weak config.gdop_warn_threshold (compute_gdop solved.emitter nodes)))
  unfolding fix_of
  fix_of_ok config windowed origin nodes none fix h = absurd (cc)
  fix_of_ok config windowed origin nodes (some solved) fix h =
      let (f, made, wrapped) =
        >>=-eq-ok (make_fix solvers config windowed origin nodes solved) _ h in
      let same : f ≡ fix = cc in
      let (r, diffs, put) = make_fix_ok config windowed origin nodes solved f made in
      (solved, r, diffs, sym same ∙ put)

  -- A fix comes from at least the least number of bearings inside the window.
  pub fuse_ok :
      (config : FusionConfig) (bearings : List (BearingReport P)) (fix : FixEvent C P)
      → fuse solvers config bearings ≡ ok (some fix)
      → (origin : P) × (nodes : List X) × (solved : Solved X C) × (r : ResidualsResult)
        × (config.min_bearings_for_fix ≤ length (windowed_of config bearings))
        × (compute_residuals predicted_azimuth solved.emitter (windowed_of config bearings) nodes
            ≡ ok r)
        × (fix
            ≡ fix_from solvers config
                (windowed_of config bearings)
                origin
                solved
                r
                (gdop_or_weak config.gdop_warn_threshold (compute_gdop solved.emitter nodes)))
  unfolding fuse
  fuse_ok config bearings fix h = windowed_ok (past_check _ _ h)
    where
      windowed : List (BearingReport P)
      windowed = windowed_of config bearings

      origin : P
      origin = solvers.choose_enu_origin (positions windowed)

      nodes : List X
      nodes = map (λ (p : P). solvers.to_enu p origin) (positions windowed)

      past_check :
          (test : Bool) (later : Try FuseError (Option (FixEvent C P)))
          → (refuse test only_peer_links >> later) ≡ ok (some fix)
          → later ≡ ok (some fix)
      past_check true later e = cc
      past_check false later e = e

      windowed_ok :
          fuse_windowed solvers config windowed ≡ ok (some fix)
          → (origin : P) × (nodes : List X) × (solved : Solved X C) × (r : ResidualsResult)
            × (config.min_bearings_for_fix ≤ length windowed)
            × (compute_residuals predicted_azimuth solved.emitter windowed nodes ≡ ok r)
            × (fix
                ≡ fix_from solvers config windowed origin solved r
                    (gdop_or_weak config.gdop_warn_threshold (compute_gdop solved.emitter nodes)))
      windowed_ok e = elim (Bool-cases (ltb (length windowed) config.min_bearings_for_fix)) [
        | inl few ↦ absurd (nothing (sym (rw few refl) ∙ e))
        | inr enough ↦
            let (solved, r, diffs, put) =
              fix_of_ok config windowed origin nodes (solve_emitter_position solvers windowed nodes)
                fix (sym (rw enough refl) ∙ e) in
            (origin, nodes, solved, r, ground arith, diffs, put)
      ]
        where
          nothing : Path (Try FuseError (Option (FixEvent C P))) (ok none) (ok (some fix)) → ⊥
          nothing e = cc
