-- ===== src/Cot/Store.antt =====
-- packages/rfmesh-cot/src/rfmesh_cot/store.py: `OperatorMarkerStore`. Each operation holds the lock, so that
-- operations of several threads follow one another. A uid is of any type with an equality test.
pub mod Live
use rfmesh_workspace.Base.{ℕ, List, [], ◌∷◌, Option, none, some, Bool, length}
use rfmesh_workspace.Base.Dict.{Key, Dict, lookup, has_key, insert, erase, values}

-- A marker with its stable uid and whatever else it says.
pub record OperatorMarker (Uid Rest : Type 0) : Type 0 where
  pub uid : Uid
  pub rest : Rest

abbrev pub MarkerStore : Type 0 → Type 0 → Type 0
MarkerStore Uid Rest = Dict Uid (OperatorMarker Uid Rest)

pub data Operation (Uid Rest : Type 0) : Type 0 where
  place_marker : OperatorMarker Uid Rest → Operation Uid Rest
  drop_marker : Uid → Operation Uid Rest

module _ {Uid Rest : Type 0} ⦃key : Key Uid⦄ where
  unfoldable pub put :
      OperatorMarker Uid Rest
      → MarkerStore Uid Rest
      → OperatorMarker Uid Rest × MarkerStore Uid Rest
  put marker s = (marker, insert marker.uid marker s)

  unfoldable pub remove :
      Uid → MarkerStore Uid Rest → Option (OperatorMarker Uid Rest) × MarkerStore Uid Rest
  remove uid s = (lookup uid s, erase uid s)

  abbrev pub get_marker : Uid → MarkerStore Uid Rest → Option (OperatorMarker Uid Rest)
  get_marker uid s = lookup uid s

  abbrev pub contains_marker : Uid → MarkerStore Uid Rest → Bool
  contains_marker uid s = has_key uid s

  unfoldable pub perform : Operation Uid Rest → MarkerStore Uid Rest → MarkerStore Uid Rest
  perform (place_marker marker) s = (put marker s).1
  perform (drop_marker uid) s = (remove uid s).1

  unfoldable pub perform_all :
      List (Operation Uid Rest) → MarkerStore Uid Rest → MarkerStore Uid Rest
  perform_all [] s = s
  perform_all (operation ∷ operations) s = perform_all operations (perform operation s)

module _ {Uid Rest : Type 0} where
  -- `all` and `__len__`
  abbrev pub all_markers : MarkerStore Uid Rest → List (OperatorMarker Uid Rest)
  all_markers s = values s

  abbrev pub marker_count : MarkerStore Uid Rest → ℕ
  marker_count s = length s
