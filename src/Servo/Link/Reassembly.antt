-- ===== src/Servo/Link/Reassembly.antt =====
-- `_read_wire_frame` over the pieces that the transport delivers.
use mathlib.Core.Path.{ap₂}
use rfmesh_workspace.Base.{
  ℕ, zero, suc, ◌+◌, ◌-◌, ◌≤◌, ◌<◌, ◌≡◌, ◌≢◌, refl, sym, ap, ◌∙◌, List, [], ◌∷◌, ◌++◌, none, some,
  true, false, leb, ◌==◌, length, Bool-cases, Option-cases, inl, inr, ◌⊎◌, arith, All, append_assoc,
  append-nil,
}
use rfmesh_workspace.Servo.Errors.{ok, err, out_of_fuel}
use rfmesh_workspace.Servo.Link.{
  Arrival, Link, read, split_terminator, read_wire_loop, read_wire_frame, stream,
}

abbrev pub IsNonzero : ℕ → Type 0
IsNonzero b = 0 < b

-- The ticks that pass until the last arrival.
abbrev pub delay : List Arrival → ℕ
delay [] = 0
delay (a ∷ rest) = a.after + delay rest

split_terminator-some :
    (front rest : List ℕ)
    → All IsNonzero front
    → split_terminator (front ++ (0 ∷ rest)) ≡ some (front, rest)
unfolding split_terminator
split_terminator-some [] rest h = refl
split_terminator-some (b ∷ front) rest h =
    let nonzero : (b == 0) ≡ false = ground arith in
    rw (nonzero, split_terminator-some front rest h.1) refl

split_terminator-none : (bytes : List ℕ) → All IsNonzero bytes → split_terminator bytes ≡ none
unfolding split_terminator
split_terminator-none [] h = refl
split_terminator-none (b ∷ bytes) h =
    let nonzero : (b == 0) ≡ false = ground arith in
    rw (nonzero, split_terminator-none bytes h.1) refl

-- A buffer holds no terminator, or it falls apart at the first one.
terminator_cases :
    (bytes : List ℕ)
    → All IsNonzero bytes
      ⊎ ((front : List ℕ) × (rest : List ℕ) × All IsNonzero front × (bytes ≡ front ++ (0 ∷ rest)))
terminator_cases [] = inl tt
terminator_cases (zero ∷ bytes) = inr ([], bytes, tt, refl)
terminator_cases (suc b ∷ bytes) = elim (terminator_cases bytes) [
  | inl h ↦ inl (omega arith, h)
  | inr (front, rest, h, e) ↦ inr (suc b ∷ front, rest, (omega arith, h), ap (λ t. suc b ∷ t) e)
]

-- The first terminator is where it is.
first_terminator :
    (front front' rest rest' : List ℕ)
    → All IsNonzero front
    → All IsNonzero front'
    → front ++ (0 ∷ rest) ≡ front' ++ (0 ∷ rest')
    → (front ≡ front') × (rest ≡ rest')
first_terminator [] [] rest rest' h h' e = (refl, cc)
first_terminator [] (b ∷ front') rest rest' h h' e = absurd (omega (arith, let z : 0 ≡ b = cc in z))
first_terminator (b ∷ front) [] rest rest' h h' e = absurd (omega (arith, let z : b ≡ 0 = cc in z))
first_terminator (b ∷ front) (c ∷ front') rest rest' h h' e =
    let heads : b ≡ c = cc in
    let tails : front ++ (0 ∷ rest) ≡ front' ++ (0 ∷ rest') = cc in
    let (fronts, rests) = first_terminator front front' rest rest' h.1 h'.1 tails in
    (ap₂ ◌∷◌ heads fronts, rests)

no_terminator : (bytes front rest : List ℕ) → All IsNonzero bytes → bytes ≢ front ++ (0 ∷ rest)
no_terminator [] [] rest h e = cc
no_terminator [] (b ∷ front) rest h e = cc
no_terminator (b ∷ bytes) [] rest h e = absurd (omega (arith, let z : b ≡ 0 = cc in z))
no_terminator (b ∷ bytes) (c ∷ front) rest h e =
    no_terminator bytes front rest h.1 (let tails : bytes ≡ front ++ (0 ∷ rest) = cc in tails)

-- What a reader that took one frame leaves behind: the bytes after it, and the clock in step.
pub record Took (s : Link) (tail : List ℕ) (s' : Link) : Type 0 where
  pub left : s'.rx_buffer ++ stream s'.arrivals ≡ tail
  pub clock : s'.now + delay s'.arrivals ≡ s.now + delay s.arrivals
  pub silent : s'.sent ≡ s.sent

read_wire_loop_frame :
    (arrivals : List Arrival) (fuel deadline now : ℕ) (sent : List (List ℕ))
    (buffer frame tail : List ℕ)
    → All IsNonzero frame
    → buffer ++ stream arrivals ≡ frame ++ (0 ∷ tail)
    → now + delay arrivals < deadline
    → length arrivals < fuel
    → (s' : Link) × (read_wire_loop fuel deadline
          (record { now = now; arrivals = arrivals; sent = sent; rx_buffer = buffer })
        ≡ (ok frame, s'))
      × Took (record { now = now; arrivals = arrivals; sent = sent; rx_buffer = buffer }) tail s'
unfolding read_wire_loop read
read_wire_loop_frame arrivals zero deadline now sent buffer frame tail hf split early enough =
    absurd (omega arith)
read_wire_loop_frame [] (suc fuel) deadline now sent buffer frame tail hf split early enough = (
  record { now = now; arrivals = []; sent = sent; rx_buffer = tail },
  rw
      (
        ap split_terminator (sym (append-nil buffer) ∙ split) ∙ split_terminator-some frame tail hf,
        read_wire_loop,
      )
      refl,
  record { left = append-nil tail; clock = refl; silent = refl },
)
read_wire_loop_frame (a ∷ rest) (suc fuel) deadline now sent buffer frame tail hf split early
      enough =
    elim (terminator_cases buffer) [
      | inr (front, behind, h, e) ↦
          let s' : Link = record {
            now = now;
            arrivals = a ∷ rest;
            sent = sent;
            rx_buffer = behind;
          } in
          let here : split_terminator buffer ≡ some (front, behind) =
            ap split_terminator e ∙ split_terminator-some front behind h in
          let whole : front ++ (0 ∷ (behind ++ stream (a ∷ rest))) ≡ frame ++ (0 ∷ tail) =
            sym (append_assoc front (0 ∷ behind) (stream (a ∷ rest)))
            ∙ ap (λ b. b ++ stream (a ∷ rest)) (sym e)
            ∙ split in
          let (fronts, rests) =
            first_terminator front frame (behind ++ stream (a ∷ rest)) tail h hf whole in
          (
            s',
            rw (here, read_wire_loop) (ap (λ f. (ok f, s')) fronts),
            record { left = rests; clock = refl; silent = refl },
          )
      | inl h ↦
          let late : leb deadline now ≡ false = ground arith in
          let soon : leb a.after (deadline - now) ≡ true = ground arith in
          let (s', runs, took) =
            read_wire_loop_frame rest fuel deadline (now + a.after) sent (buffer ++ a.chunk) frame
              tail hf (append_assoc buffer a.chunk (stream rest) ∙ split) (omega arith)
              (omega arith) in
          (
            s',
            rw (split_terminator-none buffer h, read_wire_loop) (rw (late, soon) runs),
            record { left = took.left; clock = omega (arith, took.clock); silent = took.silent },
          )
    ]

-- If the bytes in the buffer and those that arrive within the timeout hold a terminator, the bytes
-- before the first one are returned, in whatever pieces they come, and what stands behind it is
-- kept for the next call. Nothing is sent.
pub read_wire_frame_reassembles :
    (timeout : ℕ) (s : Link) (frame tail : List ℕ)
    → All IsNonzero frame
    → s.rx_buffer ++ stream s.arrivals ≡ frame ++ (0 ∷ tail)
    → delay s.arrivals < timeout
    → (s' : Link) × (read_wire_frame timeout s ≡ (ok frame, s')) × Took s tail s'
unfolding read_wire_frame
read_wire_frame_reassembles timeout s frame tail hf split early =
    read_wire_loop_frame s.arrivals (length s.arrivals + 2) (s.now + timeout) s.now s.sent
      s.rx_buffer frame tail hf split (omega arith) (omega arith)

-- At the deadline the loop ends.
read_wire_loop_late :
    (fuel deadline : ℕ) (s : Link)
    → 0 < fuel
    → deadline ≤ s.now
    → (read_wire_loop fuel deadline s).0 ≢ err out_of_fuel
unfolding read_wire_loop
read_wire_loop_late zero deadline s some_fuel late = absurd (omega arith)
read_wire_loop_late (suc fuel) deadline s some_fuel late =
    elim (Option-cases (split_terminator s.rx_buffer)) [
      | inr ((wire, rest), e) ↦ rw (e, read_wire_loop) (λ p. cc)
      | inl e ↦
          let over : leb deadline s.now ≡ true = ground arith in
          rw (e, read_wire_loop) (rw over (λ p. cc))
    ]

read_wire_loop_total :
    (arrivals : List Arrival) (fuel deadline now : ℕ) (sent : List (List ℕ)) (buffer : List ℕ)
    → length arrivals + 1 < fuel
    → (read_wire_loop fuel deadline
        (record { now = now; arrivals = arrivals; sent = sent; rx_buffer = buffer })).0
      ≢ err out_of_fuel
unfolding read_wire_loop read
read_wire_loop_total arrivals zero deadline now sent buffer enough = absurd (omega arith)
read_wire_loop_total [] (suc fuel) deadline now sent buffer enough =
    elim (Option-cases (split_terminator buffer)) [
      | inr ((wire, rest), e) ↦ rw (e, read_wire_loop) (λ p. cc)
      | inl e ↦ elim (Bool-cases (leb deadline now)) [
        | inl over ↦ rw (e, read_wire_loop) (rw over (λ p. cc))
        | inr on ↦
            rw (e, read_wire_loop)
              (rw on (read_wire_loop_late fuel deadline _ (omega arith) (omega arith)))
      ]
    ]
read_wire_loop_total (a ∷ rest) (suc fuel) deadline now sent buffer enough =
    elim (Option-cases (split_terminator buffer)) [
      | inr ((wire, more), e) ↦ rw (e, read_wire_loop) (λ p. cc)
      | inl e ↦ elim (Bool-cases (leb deadline now)) [
        | inl over ↦ rw (e, read_wire_loop) (rw over (λ p. cc))
        | inr on ↦ elim (Bool-cases (leb a.after (deadline - now))) [
          | inl soon ↦
              rw (e, read_wire_loop)
                (rw (on, soon)
                  (read_wire_loop_total rest fuel deadline (now + a.after) sent (buffer ++ a.chunk)
                    (omega arith)))
          | inr far ↦
              rw (e, read_wire_loop)
                (rw (on, far) (read_wire_loop_late fuel deadline _ (omega arith) (omega arith)))
        ]
      ]
    ]

-- A call of `_read_wire_frame` ends, whatever arrives.
pub read_wire_frame-ne-out_of_fuel :
    (timeout : ℕ) (s : Link) → (read_wire_frame timeout s).0 ≢ err out_of_fuel
unfolding read_wire_frame
read_wire_frame-ne-out_of_fuel timeout s =
    read_wire_loop_total s.arrivals (length s.arrivals + 2) (s.now + timeout) s.now s.sent
      s.rx_buffer (omega arith)
