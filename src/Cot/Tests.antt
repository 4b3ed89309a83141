-- ===== src/Cot/Tests.antt =====
-- The registry of markers at a concrete history.
pub mod Publishing
use rfmesh_workspace.Base.{ℕ, ◌≡◌, List, [], ◌∷◌, none, some, ◌↔◌}
use rfmesh_workspace.Base.Dict.{number_key}
use rfmesh_workspace.Base.Dict.Members.{IsAmong}
use rfmesh_workspace.Cot.Store.{
  OperatorMarker, Operation, place_marker, drop_marker, perform_all, all_markers,
}
use rfmesh_workspace.Cot.Store.Live.{live, all_markers-live}

abbrev marker : ℕ → ℕ → OperatorMarker ℕ ℕ
marker n label = record { uid = n; rest = label }

abbrev history : List (Operation ℕ ℕ)
history =
    place_marker (marker 1 10)
    ∷ place_marker (marker 2 20)
    ∷ place_marker (marker 1 11)
    ∷ drop_marker 2
    ∷ []

all_markers-live_example :
    IsAmong (marker 1 11) (all_markers (perform_all history []))
    ↔ (live 1 history none ≡ some (marker 1 11))
all_markers-live_example = all_markers-live history (marker 1 11)
