-- ===== src/Cot/Store/Live.antt =====
-- Which markers are live after a history of operations: what the store's snapshot is for.
use rfmesh_workspace.Base.{
  ◌≡◌, refl, sym, ap, ◌∙◌, List, [], ◌∷◌, Option, none, some, ◌↔◌, if◌then◌else◌,
}
use rfmesh_workspace.Base.Dict.{
  Key, lookup, insert, erase, lookup-insert, lookup-erase, IsDistinct, insert-IsDistinct,
  erase-IsDistinct,
}
use rfmesh_workspace.Base.Dict.Members.{
  IsAmong, IsKeyed, insert-IsKeyed, erase-IsKeyed, IsAmong-lookup, lookup-IsAmong,
}
use rfmesh_workspace.Cot.Store.{
  OperatorMarker, MarkerStore, Operation, place_marker, drop_marker, put, remove, perform,
  perform_all, all_markers,
}

module _ {Uid Rest : Type 0} ⦃key : Key Uid⦄ where
  -- The marker that a history leaves under a uid: the last one put there, if it was not removed since.
  abbrev pub live :
      Uid
      → List (Operation Uid Rest)
      → Option (OperatorMarker Uid Rest)
      → Option (OperatorMarker Uid Rest)
  live uid [] before = before
  live uid (place_marker marker ∷ operations) before =
      live uid operations (if key.same marker.uid uid then some marker else before)
  live uid (drop_marker gone ∷ operations) before =
      live uid operations (if key.same gone uid then none else before)

  lookup-perform_all :
      (uid : Uid) (operations : List (Operation Uid Rest)) (s : MarkerStore Uid Rest)
      → lookup uid (perform_all operations s) ≡ live uid operations (lookup uid s)
  unfolding perform_all perform put remove
  lookup-perform_all uid [] s = refl
  lookup-perform_all uid (place_marker marker ∷ operations) s =
      lookup-perform_all uid operations (insert marker.uid marker s)
      ∙ ap (live uid operations) (lookup-insert uid marker.uid marker s)
  lookup-perform_all uid (drop_marker gone ∷ operations) s =
      lookup-perform_all uid operations (erase gone s)
      ∙ ap (live uid operations) (lookup-erase uid gone s)

  IsRegistry : MarkerStore Uid Rest → Type 0
  IsRegistry s = IsDistinct s × IsKeyed (λ marker. marker.uid) s

  perform_all-IsRegistry :
      (operations : List (Operation Uid Rest)) (s : MarkerStore Uid Rest)
      → IsRegistry s
      → IsRegistry (perform_all operations s)
  unfolding perform_all perform put remove IsRegistry
  perform_all-IsRegistry [] s h = h
  perform_all-IsRegistry (place_marker marker ∷ operations) s h =
      perform_all-IsRegistry operations (insert marker.uid marker s)
        (insert-IsDistinct marker.uid marker s h.0, insert-IsKeyed (λ m. m.uid) marker s h.1)
  perform_all-IsRegistry (drop_marker gone ∷ operations) s h =
      perform_all-IsRegistry operations (erase gone s)
        (erase-IsDistinct gone s h.0, erase-IsKeyed (λ m. m.uid) gone s h.1)

  -- After any history of operations on an empty store, its snapshot holds exactly the markers that
  -- the history leaves live: those put last under their uid and not removed since.
  pub all_markers-live :
      (operations : List (Operation Uid Rest)) (marker : OperatorMarker Uid Rest)
      → IsAmong marker (all_markers (perform_all operations []))
        ↔ (live marker.uid operations none ≡ some marker)
  unfolding IsRegistry
  all_markers-live operations marker =
      let s = perform_all operations [] in
      let (once, keyed) = perform_all-IsRegistry operations [] (tt, tt) in
      let found = lookup-perform_all marker.uid operations [] in
      (
        λ among. sym found ∙ IsAmong-lookup (λ m. m.uid) marker s once keyed among,
        λ h. lookup-IsAmong marker.uid marker s (found ∙ h),
      )
