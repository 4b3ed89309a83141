-- ===== src/Cot/Publisher/Sync.antt =====
-- What callers without a loop get of a publisher over several calls.
use rfmesh_workspace.Base.{
  ℕ, ◌+◌, List, [], ◌∷◌, Option, none, some, Bool, true, false, ◌≡◌, refl, ap, arith,
}
use rfmesh_workspace.Base.Results.{Try, ok, err}
use rfmesh_workspace.Cot.Publisher.{
  CotError, transport_error, Publisher, SendOutcome, write_raises, drain_raises, drain_waits,
  sent_out, ensure_started, shutdown, new_publisher, publish_sync,
}

-- A call, with what pytak and the writer do at it and what the encoder returned.
pub record SyncCall (Blob : Type 0) : Type 0 where
  pub connects : Bool
  pub outcome : SendOutcome
  pub fix : Option Blob

unfoldable pub count_ok : List (Try CotError (Unit {0})) → ℕ
count_ok [] = 0
count_ok (err e ∷ rs) = count_ok rs
count_ok (ok u ∷ rs) = count_ok rs + 1

module _ {Blob : Type 0} where
  abbrev pub call : SyncCall Blob → Publisher Blob → Try CotError (Unit {0}) × Publisher Blob
  call c p = publish_sync c.connects c.outcome c.fix p

  unfoldable pub call_all : List (SyncCall Blob) → Publisher Blob → Publisher Blob
  call_all [] p = p
  call_all (c ∷ calls) p = call_all calls (call c p).1

  unfoldable pub results : List (SyncCall Blob) → Publisher Blob → List (Try CotError (Unit {0}))
  results [] p = []
  results (c ∷ calls) p = (call c p).0 ∷ results calls (call c p).1

  abbrev pub attempt :
      Bool → SendOutcome → Option Blob → Option (Blob × SendOutcome) → Option (Blob × SendOutcome)
  attempt true o (some b) later = some (b, o)
  attempt true o none later = later
  attempt false o fix later = later

  -- The first call with an encoded blob for which the server answers.
  unfoldable pub first_attempt : List (SyncCall Blob) → Option (Blob × SendOutcome)
  first_attempt [] = none
  first_attempt (c ∷ calls) = attempt c.connects c.outcome c.fix (first_attempt calls)

  -- What it leaves on the wire, and how many calls return.
  unfoldable pub written : Option (Blob × SendOutcome) → List Blob
  written none = []
  written (some (b, write_raises)) = []
  written (some (b, drain_raises)) = b ∷ []
  written (some (b, drain_waits)) = b ∷ []
  written (some (b, sent_out)) = b ∷ []

  unfoldable pub returning : Option (Blob × SendOutcome) → ℕ
  returning none = 0
  returning (some (b, write_raises)) = 0
  returning (some (b, drain_raises)) = 0
  returning (some (b, drain_waits)) = 1
  returning (some (b, sent_out)) = 1

  spent_call :
      (c : SyncCall Blob) (p : Publisher Blob)
      → p.closed ≡ true
      → call c p ≡ (err transport_error, p)
  unfolding publish_sync
  spent_call c p h = rw (h) refl

  -- A closed publisher refuses all.
  spent :
      (p : Publisher Blob)
      → p.closed ≡ true
      → (calls : List (SyncCall Blob)) → (call_all calls p ≡ p) × (count_ok (results calls p) ≡ 0)
  unfolding call_all results count_ok
  spent p h [] = (refl, refl)
  spent p h (c ∷ calls) = let rest = spent p h calls in rw (spent_call c p h) (rest.0, rest.1)

  IsOnce : List (SyncCall Blob) → Type 0
  IsOnce calls =
      ((call_all calls new_publisher).wire ≡ written (first_attempt calls))
      × (count_ok (results calls new_publisher) ≡ returning (first_attempt calls))

  then_rest :
      (connects : Bool) (o : SendOutcome) (fix : Option Blob) (calls : List (SyncCall Blob))
      → IsOnce calls
      → let sent = publish_sync connects o fix new_publisher in
        ((call_all calls sent.1).wire ≡ written (attempt connects o fix (first_attempt calls)))
        × (count_ok (sent.0 ∷ results calls sent.1)
            ≡ returning (attempt connects o fix (first_attempt calls)))
  unfolding publish_sync new_publisher ensure_started shutdown written returning count_ok IsOnce
  then_rest false o none calls once = once
  then_rest false o (some b) calls once = once
  then_rest true o none calls once = once
  then_rest true write_raises (some b) calls once =
      let (same, none_ok) = spent _ refl calls in (ap (λ p. p.wire) same, none_ok)
  then_rest true drain_raises (some b) calls once =
      let (same, none_ok) = spent _ refl calls in (ap (λ p. p.wire) same, none_ok)
  then_rest true drain_waits (some b) calls once =
      let (same, none_ok) = spent _ refl calls in (ap (λ p. p.wire) same, omega (arith, none_ok))
  then_rest true sent_out (some b) calls once =
      let (same, none_ok) = spent _ refl calls in (ap (λ p. p.wire) same, omega (arith, none_ok))

  -- Where no loop runs, of any number of calls of a new publisher at most one returns, and at most one
  -- blob is written: that of the first call with an encoded blob for which the server answers. It is on the
  -- wire unless the write raises, and its call returns unless the write or the drain raises; every call
  -- behind it raises.
  pub publish_sync_once :
      (calls : List (SyncCall Blob))
      → ((call_all calls new_publisher).wire ≡ written (first_attempt calls))
        × (count_ok (results calls new_publisher) ≡ returning (first_attempt calls))
  unfolding call_all results first_attempt written returning new_publisher count_ok IsOnce
  publish_sync_once [] = (refl, refl)
  publish_sync_once (c ∷ calls) =
      then_rest c.connects c.outcome c.fix calls (publish_sync_once calls)
