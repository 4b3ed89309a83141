-- ===== src/Cot/Publisher.antt =====
-- packages/rfmesh-cot/src/rfmesh_cot/publisher.py: `PyTAKCotPublisher`. A function is a stretch of code
-- that runs without an await; what pytak, the encoders and the writer do at it is an argument. A blob
-- is of any type.
pub mod Delivery
pub mod Endings
pub mod Sync
use rfmesh_workspace.Base.{List, [], ◌∷◌, ◌++◌, Option, none, some, Bool, true, false, not, ◌&&◌}
use rfmesh_workspace.Base.Results.{Try, ok, err, refuse, ◌>>◌, ◌>>=◌}

pub data CotError : Type 0 where
  value_error transport_error encoding_error runtime_error : CotError

-- Where the task of the TX loop stands: not made, waiting for a blob, waiting for the writer to drain,
-- or returned or cancelled.
pub data TxTask : Type 0 where
  no_task getting draining ended : TxTask

-- What a writer does with one blob: `write` or `drain` raises, the drain waits, or all is done.
pub data SendOutcome : Type 0 where
  write_raises drain_raises drain_waits sent_out : SendOutcome

pub record Publisher (Blob : Type 0) : Type 0 where
  -- `_writer is not None`, and `_loop is not None`.
  pub has_writer : Bool
  pub has_loop : Bool
  pub tx_queue : Option (List Blob)
  pub tx_task : TxTask
  pub closed : Bool
  -- `_tx_error is not None`
  pub tx_error : Bool
  -- The calls that other threads left with `call_soon_threadsafe`.
  pub callbacks : List Blob
  -- What the writer was given.
  pub wire : List Blob

abbrev pub put_nowait : {Blob : Type 0} → Blob → Option (List Blob) → Option (List Blob)
put_nowait b none = none
put_nowait b (some queue) = some (queue ++ (b ∷ []))

abbrev pub has_queue : {Blob : Type 0} → Option (List Blob) → Bool
has_queue none = false
has_queue (some queue) = true

abbrev pub has_task : TxTask → Bool
has_task no_task = false
has_task getting = true
has_task draining = true
has_task ended = true

abbrev pub is_started : {Blob : Type 0} → Publisher Blob → Bool
is_started p = has_queue p.tx_queue && has_task p.tx_task && p.has_writer

abbrev pub encoded : {Blob : Type 0} → Option Blob → Try CotError Blob
encoded none = err encoding_error
encoded (some b) = ok b

module _ {Blob : Type 0} where
  unfoldable pub new_publisher : Publisher Blob
  new_publisher = record {
    has_writer = false;
    has_loop = false;
    tx_queue = none;
    tx_task = no_task;
    closed = false;
    tx_error = false;
    callbacks = [];
    wire = [];
  }

  -- `__init__`, of a URL with or without a scheme.
  unfoldable pub make_publisher : Bool → Try CotError (Publisher Blob)
  make_publisher has_scheme = do refuse (not has_scheme) value_error; ok new_publisher

  abbrev pub check_open : Publisher Blob → Try CotError (Unit {0})
  check_open p = do refuse p.closed transport_error; refuse p.tx_error transport_error

  -- `_enqueue` on a running loop; the bootstrap cannot run a loop that runs already.
  abbrev pub enqueue : Blob → Publisher Blob → Try CotError (Publisher Blob)
  enqueue b p = do
    refuse (not (is_started p)) runtime_error
    ok (record p { tx_queue = put_nowait b p.tx_queue })

  -- `_enqueue_threadsafe`, on the publisher's loop or on another thread, once there is a loop.
  abbrev pub on_thread : Bool → Blob → Publisher Blob → Publisher Blob
  on_thread true b p = record p { tx_queue = put_nowait b p.tx_queue }
  on_thread false b p = record p { callbacks = p.callbacks ++ (b ∷ []) }

  abbrev pub when_loop : Bool → Bool → Blob → Publisher Blob → Try CotError (Publisher Blob)
  when_loop false on_loop b p = enqueue b p
  when_loop true on_loop b p = ok (on_thread on_loop b p)

  abbrev pub enqueue_threadsafe : Bool → Blob → Publisher Blob → Try CotError (Publisher Blob)
  enqueue_threadsafe on_loop b p = when_loop p.has_loop on_loop b p

  -- `publish` and `publish_node_status`, with what the encoder returned.
  unfoldable pub publish : Option Blob → Publisher Blob → Try CotError (Publisher Blob)
  publish fix p = do check_open p; b ← encoded fix; enqueue b p

  -- `publish_marker` and `delete_marker`.
  unfoldable pub publish_marker :
      Bool → Option Blob → Publisher Blob → Try CotError (Publisher Blob)
  publish_marker on_loop marker p = do
    check_open p
    b ← encoded marker
    enqueue_threadsafe on_loop b p

  unfoldable pub publish_raw : Bool → Blob → Publisher Blob → Try CotError (Publisher Blob)
  publish_raw on_loop b p = do check_open p; enqueue_threadsafe on_loop b p

  -- `_enqueue_on_loop`, of the first call that waits.
  abbrev pub run_callback : List Blob → Publisher Blob → Publisher Blob
  run_callback [] p = p
  run_callback (b ∷ rest) p = record p { callbacks = rest; tx_queue = put_nowait b p.tx_queue }

  abbrev pub opened : Publisher Blob → Publisher Blob
  opened p = record p { has_writer = true; has_loop = true; tx_queue = some []; tx_task = getting }

  abbrev pub open_unless : Bool → Bool → Publisher Blob → Try CotError (Publisher Blob)
  open_unless true connects p = ok p
  open_unless false connects p = do refuse (not connects) transport_error; ok (opened p)

  -- `_ensure_started`, with pytak connecting or raising.
  unfoldable pub ensure_started : Bool → Publisher Blob → Try CotError (Publisher Blob)
  ensure_started connects p = do
    refuse p.closed transport_error
    open_unless p.has_writer connects p

  -- `_tx_loop`: a blob is taken and written, or the writer raises; then the drain ends or raises.
  abbrev pub write_blob : Bool → Blob → List Blob → Publisher Blob → Publisher Blob
  write_blob true b queue p = record p {
    tx_queue = some queue;
    tx_task = draining;
    wire = p.wire ++ (b ∷ []);
  }
  write_blob false b queue p = record p { tx_queue = some queue; tx_task = ended; tx_error = true }

  abbrev pub take_from : Option (List Blob) → Bool → Publisher Blob → Publisher Blob
  take_from none writes p = p
  take_from (some []) writes p = p
  take_from (some (b ∷ queue)) writes p = write_blob writes b queue p

  abbrev pub get_blob : TxTask → Bool → Publisher Blob → Publisher Blob
  get_blob getting writes p = take_from p.tx_queue writes p
  get_blob no_task writes p = p
  get_blob draining writes p = p
  get_blob ended writes p = p

  abbrev pub end_drain : TxTask → Bool → Publisher Blob → Publisher Blob
  end_drain draining true p = record p { tx_task = getting }
  end_drain draining false p = record p { tx_task = ended; tx_error = true }
  end_drain no_task drains p = p
  end_drain getting drains p = p
  end_drain ended drains p = p

  -- `_shutdown`. At its awaits no one but the calls of other threads reaches the queue, and that is
  -- dropped.
  abbrev pub shut_unless : Bool → Publisher Blob → Publisher Blob
  shut_unless true p = p
  shut_unless false p = record p {
    closed = true;
    tx_task = no_task;
    has_writer = false;
    tx_queue = none;
  }

  unfoldable pub shutdown : Publisher Blob → Publisher Blob
  shutdown p = shut_unless p.closed p

  -- `_one_shot_send` of a publisher that was not started: the task writes the blob or records its error,
  -- and the transport is shut down either way.
  abbrev pub sent_once : Publisher Blob → Try CotError (Unit {0}) × Publisher Blob
  sent_once p = (refuse p.tx_error transport_error, shutdown p)

  -- The turn of the task before the caller looks again, with a drain that is over or raises by then, or
  -- that still waits and is cancelled.
  abbrev pub take_once : SendOutcome → Publisher Blob → Publisher Blob
  take_once write_raises p = take_from p.tx_queue false p
  take_once drain_raises p = let q = take_from p.tx_queue true p in end_drain q.tx_task false q
  take_once drain_waits p = take_from p.tx_queue true p
  take_once sent_out p = let q = take_from p.tx_queue true p in end_drain q.tx_task true q

  abbrev pub send_started :
      SendOutcome
      → Blob
      → Publisher Blob
      → Try CotError (Publisher Blob)
      → Try CotError (Unit {0}) × Publisher Blob
  send_started outcome b p (err e) = (err e, p)
  send_started outcome b p (ok q) =
      sent_once (take_once outcome (record q { tx_queue = put_nowait b q.tx_queue }))

  -- `publish` where no loop runs.
  abbrev pub send_encoded :
      Bool
      → SendOutcome
      → Publisher Blob
      → Try CotError Blob
      → Try CotError (Unit {0}) × Publisher Blob
  send_encoded connects outcome p (err e) = (err e, p)
  send_encoded connects outcome p (ok b) = send_started outcome b p (ensure_started connects p)

  unfoldable pub publish_sync :
      Bool → SendOutcome → Option Blob → Publisher Blob → Try CotError (Unit {0}) × Publisher Blob
  unfolding ensure_started shutdown
  publish_sync connects outcome fix p =
      send_encoded connects outcome p (check_open p >> encoded fix)
