-- ===== src/Cot/Publisher/Endings.antt =====
-- A publisher that failed or was shut down stays so.
use rfmesh_workspace.Base.{
  List, [], ◌∷◌, Option, some, Bool, true, false, ◌≡◌, refl, sym, ap, ◌∙◌, ◌||◌,
}
use rfmesh_workspace.Base.Results.{err, refuse, ◌>>◌}
use rfmesh_workspace.Cot.Publisher.{
  transport_error, runtime_error, publish, publish_marker, publish_raw, ensure_started, shutdown,
  new_publisher,
}
use rfmesh_workspace.Cot.Publisher.Delivery.{
  Step, start, call_publish, call_marker, call_raw, next_callback, next_blob, drain_ends, shut_down,
  step, step_all, started, Phase, going, failed, shut, state, Continues, continues, continues_all,
  out,
}

check_open-out :
    (closed broken : Bool)
    → (closed || broken) ≡ true
    → (refuse closed transport_error >> refuse broken transport_error) ≡ err transport_error
check_open-out true broken h = refl
check_open-out false true h = refl
check_open-out false false h = cc

module _ {Blob : Type 0} where
  -- One step of a publisher that is out writes nothing and leaves it out.
  failed_stays :
      (w r q c : List Blob) (s : Step Blob)
      → ((step s (state (failed w r q c))).wire ≡ w)
        × (out (step s (state (failed w r q c))) ≡ true)
  unfolding step state ensure_started publish publish_marker publish_raw shutdown
  failed_stays w r q c (start x) = (refl, refl)
  failed_stays w r q c (call_publish fix) = (refl, refl)
  failed_stays w r q c (call_marker x marker) = (refl, refl)
  failed_stays w r q c (call_raw x b) = (refl, refl)
  failed_stays w r q [] next_callback = (refl, refl)
  failed_stays w r q (b ∷ c) next_callback = (refl, refl)
  failed_stays w r q c (next_blob x) = (refl, refl)
  failed_stays w r q c (drain_ends x) = (refl, refl)
  failed_stays w r q c shut_down = (refl, refl)

  shut_stays :
      (e : Bool) (w r c : List Blob) (s : Step Blob)
      → ((step s (state (shut e w r c))).wire ≡ w) × (out (step s (state (shut e w r c))) ≡ true)
  unfolding step state ensure_started publish publish_marker publish_raw shutdown
  shut_stays e w r c (start x) = (refl, refl)
  shut_stays e w r c (call_publish fix) = (refl, refl)
  shut_stays e w r c (call_marker x marker) = (refl, refl)
  shut_stays e w r c (call_raw x b) = (refl, refl)
  shut_stays e w r [] next_callback = (refl, refl)
  shut_stays e w r (b ∷ c) next_callback = (refl, refl)
  shut_stays e w r c (next_blob x) = (refl, refl)
  shut_stays e w r c (drain_ends x) = (refl, refl)
  shut_stays e w r c shut_down = (refl, refl)

  stays :
      (ph : Phase Blob) (s : Step Blob)
      → out (state ph) ≡ true
      → ((step s (state ph)).wire ≡ (state ph).wire) × (out (step s (state ph)) ≡ true)
  unfolding state
  stays (going d w q c) s h = absurd (cc)
  stays (failed w r q c) s h = failed_stays w r q c s
  stays (shut e w r c) s h = shut_stays e w r c s

  stays_all :
      (ph : Phase Blob) (steps : List (Step Blob))
      → out (state ph) ≡ true
      → ((step_all steps (state ph)).wire ≡ (state ph).wire)
        × (out (step_all steps (state ph)) ≡ true)
  unfolding step_all Continues
  stays_all ph [] h = (refl, h)
  stays_all ph (s ∷ steps) h =
      let here = stays ph s h in
      let next = continues ph s in
      let out_next = sym (ap out next.1) ∙ here.1 in
      let rest = stays_all next.0 steps out_next in
      rw (step_all, next.1) (rest.0 ∙ sym (ap (λ q. q.wire) next.1) ∙ here.0, rest.1)

  -- Once the transport failed or the publisher is shut down, whatever happens then writes nothing more,
  -- also of what was accepted before, and each call to publish raises a transport error.
  pub step_all-out :
      (steps more : List (Step Blob))
      → out (step_all steps started) ≡ true
      → let end = step_all more (step_all steps started) in
        (end.wire ≡ (step_all steps started).wire)
        × ((fix : Option Blob) → publish fix end ≡ err transport_error)
        × ((on_loop : Bool) (marker : Option Blob)
            → publish_marker on_loop marker end ≡ err transport_error)
        × ((on_loop : Bool) (b : Blob) → publish_raw on_loop b end ≡ err transport_error)
  unfolding publish publish_marker publish_raw state started
  step_all-out steps more h =
      let begun = continues_all (going false [] [] []) steps in
      let stayed = stays_all begun.0 more (sym (ap out begun.1) ∙ h) in
      let end = step_all more (state begun.0) in
      let check = check_open-out end.closed end.tx_error stayed.1 in
      rw (begun.1) (
        stayed.0,
        λ fix. rw (check) refl,
        λ on_loop marker. rw (check) refl,
        λ on_loop b. rw (check) refl,
      )

  -- On a loop that runs, the first publish of a publisher that was not started raises.
  pub publish_unstarted : (b : Blob) → publish (some b) new_publisher ≡ err runtime_error
  unfolding publish new_publisher
  publish_unstarted b = refl
