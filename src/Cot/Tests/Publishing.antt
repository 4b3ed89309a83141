-- ===== src/Cot/Tests/Publishing.antt =====
-- A publisher at concrete inputs; a blob is a number.
use rfmesh_workspace.Base.{ℕ, List, [], ◌∷◌, ◌++◌, Option, none, some, Bool, true, false, ◌≡◌, refl}
use rfmesh_workspace.Base.Results.{err}
use rfmesh_workspace.Cot.Publisher.{
  ensure_started, transport_error, value_error, sent_out, drain_raises, publish, publish_marker,
  publish_raw, shutdown, new_publisher, make_publisher, publish_sync,
}
use rfmesh_workspace.Cot.Publisher.Delivery.{
  Step, call_publish, call_marker, next_callback, next_blob, drain_ends, shut_down, step, step_all,
  enters, enter_all, started, out, step_all-order,
}
use rfmesh_workspace.Cot.Publisher.Endings.{step_all-out}
use rfmesh_workspace.Cot.Publisher.Sync.{
  SyncCall, call_all, results, first_attempt, written, returning, count_ok, publish_sync_once,
}

no_scheme : make_publisher {Blob = ℕ} false ≡ err value_error
unfolding make_publisher
no_scheme = refl

-- Two fixes, a marker from another thread, a blob that cannot be encoded, and the writer takes two.
abbrev evening : List (Step ℕ)
evening =
    call_publish (some 1)
    ∷ call_marker false (some 2)
    ∷ call_publish (some 3)
    ∷ next_blob true
    ∷ next_callback
    ∷ call_publish none
    ∷ drain_ends true
    ∷ next_blob true
    ∷ []

evening_wire : (step_all evening started).wire ≡ 1 ∷ 3 ∷ []
unfolding step_all step started publish publish_marker
evening_wire = refl

evening_entered : enter_all evening started ≡ 1 ∷ 3 ∷ 2 ∷ []
unfolding step_all step started publish publish_marker enters enter_all
evening_entered = refl

-- The publisher is left before the task had its turn.
left_at_once :
    (step_all (call_publish (some 1) ∷ shut_down ∷ next_blob true ∷ []) (started {Blob = ℕ})).wire
    ≡ []
unfolding step_all step started publish shutdown
left_at_once = refl

step_all-order_example :
    (rest : List ℕ) × ((step_all evening started).wire ++ rest ≡ enter_all evening started)
    × (out (step_all evening started) ≡ false → (step_all evening started).tx_queue ≡ some rest)
step_all-order_example = step_all-order evening

abbrev leaving : List (Step ℕ)
leaving = call_publish (some 1) ∷ shut_down ∷ []

step_all-out_example :
    let end = step_all (next_blob true ∷ []) (step_all leaving started) in
    (end.wire ≡ (step_all leaving started).wire)
    × ((fix : Option ℕ) → publish fix end ≡ err transport_error)
    × ((on_loop : Bool) (marker : Option ℕ)
        → publish_marker on_loop marker end ≡ err transport_error)
    × ((on_loop : Bool) (b : ℕ) → publish_raw on_loop b end ≡ err transport_error)
unfolding step_all step started publish shutdown
step_all-out_example = step_all-out leaving (next_blob true ∷ []) refl

abbrev calls : List (SyncCall ℕ)
calls =
    record { connects = false; outcome = sent_out; fix = some 5 }
    ∷ record { connects = true; outcome = drain_raises; fix = some 6 }
    ∷ record { connects = true; outcome = sent_out; fix = some 7 }
    ∷ []

every_call_raises :
    results calls new_publisher
    ≡ err transport_error ∷ err transport_error ∷ err transport_error ∷ []
unfolding results publish_sync new_publisher ensure_started shutdown
every_call_raises = refl

publish_sync_once_example :
    ((call_all calls new_publisher).wire ≡ 6 ∷ []) × (count_ok (results calls new_publisher) ≡ 0)
unfolding first_attempt written returning
publish_sync_once_example = publish_sync_once calls
