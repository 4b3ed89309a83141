-- ===== src/Backend/Tests.antt =====
-- The server's store and its registries of sockets at concrete inputs.
use rfmesh_workspace.Base.{
  ℕ, zero, suc, ◌≡◌, refl, List, [], ◌∷◌, Option, none, some, Bool, true, false, ◌==◌, All, ◌↔◌,
}
use rfmesh_workspace.Base.Results.{Try, ok, err}
use rfmesh_workspace.Base.Dict.Members.{IsAmong}
use rfmesh_workspace.Backend.Store.{
  flat, peer_link, FixEvent, BearingReport, Store, make_store, upsert_bearing, list_bearings,
  latest_bearings_per_node, upsert_fix,
}
use rfmesh_workspace.Backend.Store.Latest.{
  IsWell, IsNoNewer, upsert_bearing-IsWell, latest_bearings_per_node-IsNoNewer,
}
use rfmesh_workspace.Backend.Store.Calls.{
  Call, fix_in, red_in, red_out, freq_of, seeded_of, call_all, abstract_all, empty_view, Represents,
}
use rfmesh_workspace.Backend.Store.Refinement.{call_all_refines}
use rfmesh_workspace.Backend.Ws.{Registries, init_registries, register, get}
use rfmesh_workspace.Backend.Ws.Lifetimes.{
  Event, connected, ended, said_hello, happen_all, live_socket_stays,
}
use rfmesh_workspace.Backend.Ws.Broadcast.{quiet}
use rfmesh_workspace.Backend.Ws.Frames.{
  Kind, node_hello, node_state, send_comms_message, Request, Incoming, disconnect, not_json, frame,
  post_command,
}
use rfmesh_workspace.Backend.Ws.Outcomes.{IsOutcome, post_command-IsOutcome}

abbrev early : BearingReport ℕ
early = record { node_id = 4; t_unix_ns = 100; prior_kind = flat; rest = 0 }

abbrev late : BearingReport ℕ
late = record { node_id = 4; t_unix_ns = 250; prior_kind = peer_link; rest = 1 }

abbrev elsewhere : BearingReport ℕ
elsewhere = record { node_id = 9; t_unix_ns = 180; prior_kind = peer_link; rest = 2 }

abbrev bearings : Store ℕ
bearings = upsert_bearing early (upsert_bearing elsewhere (upsert_bearing late make_store))

empty-IsWell : IsWell {A = ℕ} make_store
unfolding IsWell
empty-IsWell = (tt, tt)

bearings-IsWell : IsWell bearings
bearings-IsWell =
    upsert_bearing-IsWell early _
      (upsert_bearing-IsWell elsewhere _ (upsert_bearing-IsWell late make_store empty-IsWell))

latest_bearings_per_node-IsNoNewer_example :
    IsAmong late (latest_bearings_per_node bearings)
    ↔ (IsAmong late (list_bearings bearings) × All (IsNoNewer late) (list_bearings bearings))
latest_bearings_per_node-IsNoNewer_example =
    latest_bearings_per_node-IsNoNewer bearings late bearings-IsWell

abbrev seen_fix : FixEvent ℕ
seen_fix = record { fix_id = 1; t_unix_ns = 30; rest = 0 }

abbrev moved_fix : FixEvent ℕ
moved_fix = record { fix_id = 1; t_unix_ns = 40; rest = 1 }

abbrev other_fix : FixEvent ℕ
other_fix = record { fix_id = 2; t_unix_ns = 60; rest = 2 }

abbrev fixes : Store ℕ
fixes = upsert_fix other_fix false none (upsert_fix seen_fix true (some 868) make_store)

abbrev calls : List (Call ℕ)
calls =
    fix_in seen_fix true (some 868)
    ∷ fix_in moved_fix false none
    ∷ seeded_of 1
    ∷ freq_of 1
    ∷ red_in 77 (record { id = none; rest = 5 })
    ∷ red_out 77
    ∷ []

call_all_refines_example :
    ((call_all calls make_store).0 ≡ (abstract_all calls empty_view).0)
    × Represents (call_all calls make_store).1 (abstract_all calls empty_view).1
call_all_refines_example = call_all_refines calls

abbrev reconnects : List (Event ℕ)
reconnects = ended 3 10 ∷ connected 5 12 ∷ said_hello 3 1 ∷ ended 5 12 ∷ []

live_socket_stays_example :
    get 3 (happen_all reconnects (register 3 11 (register 3 10 init_registries))) ≡ some 11
live_socket_stays_example =
    live_socket_stays 3 11 reconnects (register 3 10 init_registries)
      (refl, (refl, (refl, (refl, tt))))

abbrev sockets : Registries ℕ
sockets = record {
  by_node = (3, 10) ∷ (5, 12) ∷ (7, 14) ∷ [];
  hello_by_node = [];
  subs = 20 ∷ 21 ∷ [];
}

abbrev is_down : ℕ → Bool
is_down ws = ws == 12

abbrev accepts : Kind → ℕ → Option ℕ
accepts kind body = some body

abbrev request : Request ℕ
request = record { kind = some send_comms_message; body = 6 }

post_command-IsOutcome_example :
    IsOutcome accepts
      (λ command. quiet is_down)
      5
      request
      sockets
      (post_command accepts (λ command. quiet is_down) 5 request sockets).0
      (post_command accepts (λ command. quiet is_down) 5 request sockets).1
post_command-IsOutcome_example =
    post_command-IsOutcome accepts (λ command. quiet is_down) 5 request sockets

abbrev parse : ℕ → Try ℕ ℕ
parse zero = err 404
parse (suc n) = ok n

abbrev session : List (Incoming ℕ)
session = frame node_hello 8 ∷ not_json ∷ frame node_state 1 ∷ frame node_hello 9 ∷ disconnect ∷ []
