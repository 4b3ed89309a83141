-- ===== src/Node/Rendezvous/Moves.antt =====
-- Where a node points its antenna while it acquires a peer, and how soon it stops when it is told to.
use rfmesh_workspace.Base.Dict.Members.{IsAmong}
use rfmesh_workspace.Base.{
  ◌++◌, ◌⊎◌, sym, ◌∙◌, append_assoc, ℕ, ◌+◌, ◌-◌, ◌≤◌, ◌<◌, ◌≡◌, refl, ap, List, [], ◌∷◌, Option,
  none, some, Bool, true, false, ◌&&◌, ltb, leb, Bool-cases, inl, inr, ◌↔◌, All, All-append, length,
  if◌then◌else◌, arith,
}
use rfmesh_workspace.Node.Sweep.{min_observations, servo_angle_of, move_each}
use rfmesh_workspace.Node.Sweep.Arc.{IsReach, arc_angles-IsReach, move_each-All}
use rfmesh_workspace.Node.Rendezvous.{
  Role, starer, scanner, role, RendezvousConfig, expected_servo_angle, at_least, at_most,
  refine_angles, Rung, refine_once, Acquired, repoint, after_pass, ladder, point_and_refine,
  acquire_at, acquire,
}

-- Both peers derive roles that differ, whichever of them asks.
role-symmetric : (a b : ℕ) → (role a b ≡ some starer) ↔ (role b a ≡ some scanner)
unfolding role
role-symmetric a b = ground arith

module _ (c : RendezvousConfig) where
  -- The servo's arc, with half a step beyond its upper end.
  abbrev pub IsInReach : ℕ → Type 0
  IsInReach a = IsReach c.min_servo c.max_servo c.refine_step a

  widen :
      (lo hi : ℕ) (as_left : List ℕ)
      → c.min_servo ≤ lo
      → hi ≤ c.max_servo
      → All (IsReach lo hi c.refine_step) as_left
      → All IsInReach as_left
  widen lo hi [] low high h = tt
  widen lo hi (a ∷ as_left) low high h =
      ((omega (arith, h.0.0), omega (arith, h.0.1)), widen lo hi as_left low high h.1)

  refine_angles-IsInReach :
      (target half_arc : ℕ)
      → 0 < c.refine_step
      → c.min_servo ≤ target
      → target ≤ c.max_servo
      → All IsInReach (refine_angles c target half_arc)
  unfolding refine_angles
  refine_angles-IsInReach target half_arc positive low high =
      let lo = at_least (target - half_arc) c.min_servo in
      let hi = at_most (target + half_arc) c.max_servo in
      widen lo hi _ (ground arith) (ground arith)
        (arc_angles-IsReach lo hi c.refine_step positive (ground arith))

  refine_once-IsInReach :
      (target : ℕ) (rung : Rung) (halted : ℕ → Bool) (k : ℕ)
      → All IsInReach (refine_angles c target rung.half_arc)
      → All IsInReach (refine_once c target rung halted k).moves
  unfolding refine_once
  refine_once-IsInReach target rung halted k h =
      elim (Bool-cases (ltb (length (refine_angles c target rung.half_arc)) min_observations)) [
        | inl few ↦ rw few tt
        | inr enough ↦
            rw enough (move_each-All IsInReach halted k (refine_angles c target rung.half_arc) h)
      ]

  refine_once-found :
      (target : ℕ) (rung : Rung) (halted : ℕ → Bool) (k bearing : ℕ)
      → (refine_once c target rung halted k).found ≡ some bearing
      → rung.estimate ≡ some bearing
  unfolding refine_once
  refine_once-found target rung halted k bearing =
      elim (Bool-cases (ltb (length (refine_angles c target rung.half_arc)) min_observations)) [
        | inl few ↦ rw few (λ h. absurd (cc))
        | inr enough ↦ rw enough (
            complete_found (move_each halted k (refine_angles c target rung.half_arc)).complete
              rung.estimate)
      ]
    where
      complete_found :
          (b : Bool) (o : Option ℕ) → (if b then o else none) ≡ some bearing → o ≡ some bearing
      complete_found true o h = h
      complete_found false o h = absurd (cc)

  -- The peak that the estimator found behind one of the passes.
  abbrev pub IsPeak : List Rung → List ℕ → Type 0
  IsPeak rungs moves =
      (rung : Rung) × IsAmong rung rungs
      × (bearing : ℕ) × (rung.estimate ≡ some bearing)
      × (moves ≡ servo_angle_of c.half_circle c.boresight bearing ∷ [])

  -- Moves in reach, and behind them at most one more, to a peak.
  unfoldable pub IsScan : List Rung → List ℕ → Type 0
  IsScan rungs moves =
      (scan last : List ℕ) × (moves ≡ scan ++ last)
      × All IsInReach scan
      × ((last ≡ []) ⊎ IsPeak rungs last)

  no_moves-IsScan : (rungs : List Rung) → IsScan rungs []
  unfolding IsScan
  no_moves-IsScan rungs = ([], [], refl, tt, inl refl)

  append-IsScan :
      (rungs : List Rung) (front moves : List ℕ)
      → All IsInReach front
      → IsScan rungs moves
      → IsScan rungs (front ++ moves)
  unfolding IsScan
  append-IsScan rungs front moves h (scan, last, same, inside, ending) = (
    front ++ scan,
    last,
    ap (λ t. front ++ t) same ∙ sym (append_assoc front scan last),
    All-append IsInReach front scan h inside,
    ending,
  )

  later-IsScan :
      (rung : Rung) (rungs : List Rung) (moves : List ℕ)
      → IsScan rungs moves
      → IsScan (rung ∷ rungs) moves
  unfolding IsScan
  later-IsScan rung rungs moves (scan, last, same, inside, inl none_more) =
      (scan, last, same, inside, inl none_more)
  later-IsScan rung rungs moves (scan, last, same, inside, inr (peak, among, bearing, found, at)) =
      (scan, last, same, inside, inr (peak, inr among, bearing, found, at))

  repoint-IsScan :
      (rung : Rung) (rungs : List Rung) (bearing : ℕ) (halted : ℕ → Bool) (k : ℕ)
      → rung.estimate ≡ some bearing
      → IsScan (rung ∷ rungs) (repoint c bearing halted k).1
  unfolding repoint IsScan
  repoint-IsScan rung rungs bearing halted k found = elim (Bool-cases (halted k)) [
    | inl stop ↦ rw stop ([], [], refl, tt, inl refl)
    | inr go_on ↦ rw go_on ([], _, refl, tt, inr (rung, inl refl, bearing, found, refl))
  ]

  after_pass-IsScan :
      (rung : Rung) (rungs : List Rung) (halted : ℕ → Bool) (moves : List ℕ) (found : Option ℕ)
      (k : ℕ) (next_rung : Acquired)
      → ((bearing : ℕ) → found ≡ some bearing → rung.estimate ≡ some bearing)
      → All IsInReach moves
      → IsScan rungs next_rung.1
      → IsScan
          (rung ∷ rungs)
          (after_pass c halted (record { moves = moves; found = found; next = k }) next_rung).1
  after_pass-IsScan rung rungs halted moves none k next_rung seen h later =
      append-IsScan (rung ∷ rungs) moves next_rung.1 h (later-IsScan rung rungs next_rung.1 later)
  after_pass-IsScan rung rungs halted moves (some bearing) k next_rung seen h later =
      append-IsScan (rung ∷ rungs) moves _ h
        (repoint-IsScan rung rungs bearing halted k (seen bearing refl))

  ladder-IsScan :
      (target : ℕ) (rungs : List Rung) (halted : ℕ → Bool) (k : ℕ)
      → 0 < c.refine_step
      → c.min_servo ≤ target
      → target ≤ c.max_servo
      → IsScan rungs (ladder c target rungs halted k).1
  unfolding ladder
  ladder-IsScan target [] halted k positive low high = no_moves-IsScan []
  ladder-IsScan target (rung ∷ rungs) halted k positive low high =
      let refined = refine_once c target rung halted (k + 1) in
      elim (Bool-cases (halted k)) [
        | inl stop ↦ rw stop (no_moves-IsScan (rung ∷ rungs))
        | inr go_on ↦ rw go_on (
            after_pass-IsScan rung rungs halted refined.moves refined.found refined.next _
              (λ bearing h. refine_once-found target rung halted (k + 1) bearing h)
              (refine_once-IsInReach target rung halted (k + 1)
                (refine_angles-IsInReach target rung.half_arc positive low high))
              (ladder-IsScan target rungs halted refined.next positive low high))
      ]

  point_and_refine-IsScan :
      (r : Role) (rungs : List Rung) (halted : ℕ → Bool) (target : ℕ)
      → 0 < c.refine_step
      → c.min_servo ≤ target
      → target ≤ c.max_servo
      → IsScan rungs (point_and_refine c r rungs halted target).1
  unfolding point_and_refine
  point_and_refine-IsScan starer rungs halted target positive low high =
      append-IsScan rungs (target ∷ []) [] ((low, omega arith), tt) (no_moves-IsScan rungs)
  point_and_refine-IsScan scanner rungs halted target positive low high =
      append-IsScan rungs (target ∷ []) _ ((low, omega arith), tt)
        (ladder-IsScan target rungs halted 1 positive low high)

  -- If the step is positive, every angle to which `acquire` moves the servo lies in the servo's arc or at
  -- most half a step beyond its upper end, but for at most one, which is the last and the angle of a bearing
  -- that the estimator gave behind one of the passes; that one is not compared with the arc.
  pub acquire-IsScan :
      (r : Role) (bearing : ℕ) (rungs : List Rung) (halted : ℕ → Bool)
      → 0 < c.refine_step
      → IsScan rungs (acquire c r bearing rungs halted).1
  unfolding acquire_at expected_servo_angle
  acquire-IsScan r bearing rungs halted positive =
      let angle = servo_angle_of c.half_circle c.boresight bearing in
      elim (Bool-cases (leb c.min_servo angle && leb angle c.max_servo)) [
        | inl inside ↦ rw inside (elim (Bool-cases (halted 0)) [
          | inl stop ↦ rw stop (no_moves-IsScan rungs)
          | inr go_on ↦
              rw go_on (
                point_and_refine-IsScan r rungs halted angle positive (ground arith) (ground arith))
        ])
        | inr outside ↦ rw outside (no_moves-IsScan rungs)
      ]
