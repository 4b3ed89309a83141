-- ===== src/Cot/Publisher/Delivery.antt =====
-- A started publisher writes what its queue was given, in that order and without gaps, until the transport
-- fails or it is shut down; then it writes nothing more.
use rfmesh_workspace.Base.{
  List, [], ◌∷◌, ◌++◌, append_assoc, append-nil, Option, none, some, Bool, true, false, ◌≡◌, refl,
  sym, ap, ◌∙◌, ◌||◌,
}
use rfmesh_workspace.Base.Results.{Try, ok, err}
use rfmesh_workspace.Cot.Publisher.{
  CotError, Publisher, TxTask, no_task, getting, draining, ended, publish, publish_marker,
  publish_raw, run_callback, ensure_started, get_blob, end_drain, shutdown,
}

-- What happens to a publisher: a start, the calls, a call that another thread left, the turns of the task
-- that writes, and the shutdown. A Boolean is what pytak or the writer does, or whether the caller is on
-- the publisher's loop.
pub data Step (Blob : Type 0) : Type 0 where
  start : Bool → Step Blob
  call_publish : Option Blob → Step Blob
  call_marker : Bool → Option Blob → Step Blob
  call_raw : Bool → Blob → Step Blob
  next_callback : Step Blob
  next_blob : Bool → Step Blob
  drain_ends : Bool → Step Blob
  shut_down : Step Blob

-- A call that raises changes nothing.
abbrev pub after : {Blob : Type 0} → Publisher Blob → Try CotError (Publisher Blob) → Publisher Blob
after p (err e) = p
after p (ok q) = q

abbrev pub returned : {Blob : Type 0} → List Blob → Try CotError (Publisher Blob) → List Blob
returned bs (err e) = []
returned bs (ok q) = bs

abbrev pub blobs_of : {Blob : Type 0} → Option Blob → List Blob
blobs_of none = []
blobs_of (some b) = b ∷ []

-- The call that waits finds the queue open, or it does nothing.
abbrev pub first_when_open : {Blob : Type 0} → List Blob → Option (List Blob) → List Blob
first_when_open [] queue = []
first_when_open (b ∷ rest) none = []
first_when_open (b ∷ rest) (some queue) = b ∷ []

-- The states that a started publisher can reach: it writes, it failed or it is shut down. With what it
-- wrote, and what is still to be written or never will be.
pub data Phase (Blob : Type 0) : Type 0 where
  going : (is_draining : Bool) (wire queue callbacks : List Blob) → Phase Blob
  failed : (wire rest queue callbacks : List Blob) → Phase Blob
  shut : (has_failed : Bool) (wire rest callbacks : List Blob) → Phase Blob

abbrev pub task_of : Bool → TxTask
task_of true = draining
task_of false = getting

-- Failed, or shut down.
abbrev pub out : {Blob : Type 0} → Publisher Blob → Bool
out p = p.closed || p.tx_error

module _ {Blob : Type 0} where
  unfoldable pub step : Step Blob → Publisher Blob → Publisher Blob
  step (start connects) p = after p (ensure_started connects p)
  step (call_publish fix) p = after p (publish fix p)
  step (call_marker on_loop marker) p = after p (publish_marker on_loop marker p)
  step (call_raw on_loop b) p = after p (publish_raw on_loop b p)
  step next_callback p = run_callback p.callbacks p
  step (next_blob writes) p = get_blob p.tx_task writes p
  step (drain_ends drains) p = end_drain p.tx_task drains p
  step shut_down p = shutdown p

  unfoldable pub step_all : List (Step Blob) → Publisher Blob → Publisher Blob
  step_all [] p = p
  step_all (s ∷ steps) p = step_all steps (step s p)

  -- The blobs that a step puts on the queue: those of the calls on the loop that return, and those that
  -- other threads left.
  unfoldable pub enters : Step Blob → Publisher Blob → List Blob
  enters (call_publish fix) p = returned (blobs_of fix) (publish fix p)
  enters (call_marker true marker) p = returned (blobs_of marker) (publish_marker true marker p)
  enters (call_raw true b) p = returned (b ∷ []) (publish_raw true b p)
  enters next_callback p = first_when_open p.callbacks p.tx_queue
  enters _ p = []

  unfoldable pub enter_all : List (Step Blob) → Publisher Blob → List Blob
  enter_all [] p = []
  enter_all (s ∷ steps) p = enters s p ++ enter_all steps (step s p)

  unfoldable pub started : Publisher Blob
  started = record {
    has_writer = true;
    has_loop = true;
    tx_queue = some [];
    tx_task = getting;
    closed = false;
    tx_error = false;
    callbacks = [];
    wire = [];
  }

  unfoldable pub state : Phase Blob → Publisher Blob
  state (going d w q c) = record {
    has_writer = true;
    has_loop = true;
    tx_queue = some q;
    tx_task = task_of d;
    closed = false;
    tx_error = false;
    callbacks = c;
    wire = w;
  }
  state (failed w r q c) = record {
    has_writer = true;
    has_loop = true;
    tx_queue = some q;
    tx_task = ended;
    closed = false;
    tx_error = true;
    callbacks = c;
    wire = w;
  }
  state (shut e w r c) = record {
    has_writer = false;
    has_loop = true;
    tx_queue = none;
    tx_task = no_task;
    closed = true;
    tx_error = e;
    callbacks = c;
    wire = w;
  }

  unfoldable pub log : Phase Blob → List Blob
  log (going d w q c) = w ++ q
  log (failed w r q c) = w ++ r
  log (shut e w r c) = w ++ r

  unfoldable pub Continues : Phase Blob → Step Blob → Type 0
  Continues ph s =
      (next : Phase Blob) × (step s (state ph) ≡ state next)
      × (log next ≡ log ph ++ enters s (state ph))

  put_last : (w q : List Blob) (b : Blob) → w ++ (q ++ (b ∷ [])) ≡ (w ++ q) ++ (b ∷ [])
  put_last w q b = sym (append_assoc w q (b ∷ []))

  going-Continues : (d : Bool) (w q c : List Blob) (s : Step Blob) → Continues (going d w q c) s
  unfolding Continues step enters state log ensure_started publish publish_marker publish_raw
      shutdown
  going-Continues d w q c (start x) = (going d w q c, refl, sym (append-nil _))
  going-Continues d w q c (call_publish none) = (going d w q c, refl, sym (append-nil _))
  going-Continues true w q c (call_publish (some b)) =
      (going true w (q ++ (b ∷ [])) c, refl, put_last w q b)
  going-Continues false w q c (call_publish (some b)) =
      (going false w (q ++ (b ∷ [])) c, refl, put_last w q b)
  going-Continues d w q c (call_marker true none) = (going d w q c, refl, sym (append-nil _))
  going-Continues d w q c (call_marker false none) = (going d w q c, refl, sym (append-nil _))
  going-Continues d w q c (call_marker true (some b)) =
      (going d w (q ++ (b ∷ [])) c, refl, put_last w q b)
  going-Continues d w q c (call_marker false (some b)) =
      (going d w q (c ++ (b ∷ [])), refl, sym (append-nil _))
  going-Continues d w q c (call_raw true b) = (going d w (q ++ (b ∷ [])) c, refl, put_last w q b)
  going-Continues d w q c (call_raw false b) =
      (going d w q (c ++ (b ∷ [])), refl, sym (append-nil _))
  going-Continues d w q [] next_callback = (going d w q [], refl, sym (append-nil _))
  going-Continues d w q (b ∷ c) next_callback = (going d w (q ++ (b ∷ [])) c, refl, put_last w q b)
  going-Continues true w q c (next_blob x) = (going true w q c, refl, sym (append-nil _))
  going-Continues false w [] c (next_blob x) = (going false w [] c, refl, sym (append-nil _))
  going-Continues false w (b ∷ q) c (next_blob true) =
      (going true (w ++ (b ∷ [])) q c, refl, append_assoc w (b ∷ []) q ∙ sym (append-nil _))
  going-Continues false w (b ∷ q) c (next_blob false) =
      (failed w (b ∷ q) q c, refl, sym (append-nil _))
  going-Continues true w q c (drain_ends true) = (going false w q c, refl, sym (append-nil _))
  going-Continues true w q c (drain_ends false) = (failed w q q c, refl, sym (append-nil _))
  going-Continues false w q c (drain_ends x) = (going false w q c, refl, sym (append-nil _))
  going-Continues d w q c shut_down = (shut false w q c, refl, sym (append-nil _))

  failed-Continues : (w r q c : List Blob) (s : Step Blob) → Continues (failed w r q c) s
  unfolding Continues step enters state log ensure_started publish publish_marker publish_raw
      shutdown
  failed-Continues w r q [] next_callback = (failed w r q [], refl, sym (append-nil _))
  failed-Continues w r q (b ∷ c) next_callback =
      (failed w (r ++ (b ∷ [])) (q ++ (b ∷ [])) c, refl, put_last w r b)
  failed-Continues w r q c (start x) = (failed w r q c, refl, sym (append-nil _))
  failed-Continues w r q c (call_publish fix) = (failed w r q c, refl, sym (append-nil _))
  failed-Continues w r q c (call_marker true marker) = (failed w r q c, refl, sym (append-nil _))
  failed-Continues w r q c (call_marker false marker) = (failed w r q c, refl, sym (append-nil _))
  failed-Continues w r q c (call_raw true b) = (failed w r q c, refl, sym (append-nil _))
  failed-Continues w r q c (call_raw false b) = (failed w r q c, refl, sym (append-nil _))
  failed-Continues w r q c (next_blob x) = (failed w r q c, refl, sym (append-nil _))
  failed-Continues w r q c (drain_ends x) = (failed w r q c, refl, sym (append-nil _))
  failed-Continues w r q c shut_down = (shut true w r c, refl, sym (append-nil _))

  shut-Continues : (e : Bool) (w r c : List Blob) (s : Step Blob) → Continues (shut e w r c) s
  unfolding Continues step enters state log ensure_started publish publish_marker publish_raw
      shutdown
  shut-Continues e w r [] next_callback = (shut e w r [], refl, sym (append-nil _))
  shut-Continues e w r (b ∷ c) next_callback = (shut e w r c, refl, sym (append-nil _))
  shut-Continues e w r c (start x) = (shut e w r c, refl, sym (append-nil _))
  shut-Continues e w r c (call_publish fix) = (shut e w r c, refl, sym (append-nil _))
  shut-Continues e w r c (call_marker true marker) = (shut e w r c, refl, sym (append-nil _))
  shut-Continues e w r c (call_marker false marker) = (shut e w r c, refl, sym (append-nil _))
  shut-Continues e w r c (call_raw true b) = (shut e w r c, refl, sym (append-nil _))
  shut-Continues e w r c (call_raw false b) = (shut e w r c, refl, sym (append-nil _))
  shut-Continues e w r c (next_blob x) = (shut e w r c, refl, sym (append-nil _))
  shut-Continues e w r c (drain_ends x) = (shut e w r c, refl, sym (append-nil _))
  shut-Continues e w r c shut_down = (shut e w r c, refl, sym (append-nil _))

  pub continues : (ph : Phase Blob) (s : Step Blob) → Continues ph s
  continues (going d w q c) s = going-Continues d w q c s
  continues (failed w r q c) s = failed-Continues w r q c s
  continues (shut e w r c) s = shut-Continues e w r c s

  pub continues_all :
      (ph : Phase Blob) (steps : List (Step Blob))
      → (next : Phase Blob) × (step_all steps (state ph) ≡ state next)
        × (log next ≡ log ph ++ enter_all steps (state ph))
  unfolding Continues step_all enter_all
  continues_all ph [] = (ph, refl, sym (append-nil _))
  continues_all ph (s ∷ steps) =
      let first = continues ph s in
      let rest = continues_all first.0 steps in
      (
        rest.0,
        rw (first.1) rest.1,
        rw (first.1) (
            rest.2
            ∙ ap (λ t. t ++ enter_all steps (state first.0)) first.2
            ∙ append_assoc (log ph) (enters s (state ph)) _),
      )

  written :
      (ph : Phase Blob)
      → (rest : List Blob) × ((state ph).wire ++ rest ≡ log ph)
        × (out (state ph) ≡ false → (state ph).tx_queue ≡ some rest)
  unfolding state log
  written (going d w q c) = (q, refl, λ _. refl)
  written (failed w r q c) = (r, refl, λ h. absurd (cc))
  written (shut e w r c) = (r, refl, λ h. absurd (cc))

  -- Whatever happens to a started publisher, what is on the wire and then something more is what was put
  -- on the queue, in that order, once each and without gaps; while it has neither failed nor been shut
  -- down, that something more is what the queue still holds.
  pub step_all-order :
      (steps : List (Step Blob))
      → (rest : List Blob) × ((step_all steps started).wire ++ rest ≡ enter_all steps started)
        × (out (step_all steps started) ≡ false → (step_all steps started).tx_queue ≡ some rest)
  unfolding started state log
  step_all-order steps =
      let end = continues_all (going false [] [] []) steps in
      let rest = written end.0 in (rest.0, rw (end.1) (rest.1 ∙ end.2), rw (end.1) rest.2)
