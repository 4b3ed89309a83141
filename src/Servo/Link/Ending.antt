-- ===== src/Servo/Link/Ending.antt =====
-- `_read_decoded_frame`, measured by the bytes that are there or still to come.
use rfmesh_workspace.Base.{
  ℕ, zero, suc, ◌+◌, ◌-◌, ◌≤◌, ◌<◌, ◌≡◌, ◌≢◌, refl, List, [], ◌∷◌, ◌++◌, Bool, true, false, leb,
  ◌==◌, length, length-append, Bool-cases, Option-cases, inl, inr, arith, some,
}
use rfmesh_workspace.Servo.Errors.{Result, ok, err, ◌>>=◌, out_of_fuel}
use rfmesh_workspace.Servo.Cobs.{cobs_decode}
use rfmesh_workspace.Servo.Cobs.RoundTrip.{cobs_decode-ne-out_of_fuel}
use rfmesh_workspace.Servo.Protocol.{decode_frame, decode_body, strip_terminator}
use rfmesh_workspace.Servo.Link.{
  Arrival, Link, read, split_terminator, read_wire_loop, read_wire_frame, read_decoded_loop,
  read_decoded_frame, classify, decoded, Outcome, again, stop, resume, stream, timeout_error,
}
use rfmesh_workspace.Servo.Link.Reassembly.{read_wire_frame-ne-out_of_fuel}

decode_body-ne-out_of_fuel : (bytes : List ℕ) → decode_body bytes ≢ err out_of_fuel
unfolding decode_body
decode_body-ne-out_of_fuel bytes h = ground arith

body_after-ne-out_of_fuel :
    (r : Result (List ℕ)) → r ≢ err out_of_fuel → (r >>= decode_body) ≢ err out_of_fuel
body_after-ne-out_of_fuel (ok bytes) ends = decode_body-ne-out_of_fuel bytes
body_after-ne-out_of_fuel (err e) ends = λ p. ends (cc)

-- Decoding a frame ends.
pub decode_frame-ne-out_of_fuel : (wire : List ℕ) → decode_frame wire ≢ err out_of_fuel
unfolding decode_frame
decode_frame-ne-out_of_fuel wire h = ground (
  arith,
  body_after-ne-out_of_fuel (cobs_decode (strip_terminator wire))
      (cobs_decode-ne-out_of_fuel (strip_terminator wire)),
)

split_terminator-length :
    (bytes wire rest : List ℕ)
    → split_terminator bytes ≡ some (wire, rest)
    → length rest < length bytes
unfolding split_terminator
split_terminator-length [] wire rest h = cc
split_terminator-length (b ∷ bytes) wire rest h = elim (Bool-cases (b == 0)) [
  | inl z ↦ ground arith
  | inr nz ↦ elim (Option-cases (split_terminator bytes)) [
    | inl e ↦ ground arith
    | inr ((w, r), e) ↦ ground (arith, split_terminator-length bytes w r e)
  ]
]

-- The bytes that are there or still to come.
abbrev weight : Link → ℕ
weight s = length s.rx_buffer + length (stream s.arrivals)

-- A wire frame that was returned took its terminator with it.
abbrev Lighter : ℕ → Result (List ℕ) × Link → Type 0
Lighter n (ok wire, s) = weight s < n
Lighter n (err e, s) = Unit {0}

loop_late-Lighter :
    (fuel deadline n : ℕ) (s : Link)
    → deadline ≤ s.now
    → weight s ≤ n
    → Lighter n (read_wire_loop fuel deadline s)
unfolding read_wire_loop
loop_late-Lighter zero deadline n s late w = tt
loop_late-Lighter (suc fuel) deadline n s late w =
    elim (Option-cases (split_terminator s.rx_buffer)) [
      | inr ((wire, rest), e) ↦
          rw (e, read_wire_loop) (omega (arith, split_terminator-length s.rx_buffer wire rest e))
      | inl e ↦
          let over : leb deadline s.now ≡ true = ground arith in rw (e, read_wire_loop) (rw over tt)
    ]

loop-Lighter :
    (arrivals : List Arrival) (fuel deadline n now : ℕ) (sent : List (List ℕ)) (buffer : List ℕ)
    → length buffer + length (stream arrivals) ≤ n
    → Lighter n (
        read_wire_loop fuel deadline
          (record { now = now; arrivals = arrivals; sent = sent; rx_buffer = buffer }))
unfolding read_wire_loop read
loop-Lighter arrivals zero deadline n now sent buffer w = tt
loop-Lighter [] (suc fuel) deadline n now sent buffer w =
    elim (Option-cases (split_terminator buffer)) [
      | inr ((wire, rest), e) ↦
          rw (e, read_wire_loop) (omega (arith, split_terminator-length buffer wire rest e))
      | inl e ↦ elim (Bool-cases (leb deadline now)) [
        | inl over ↦ rw (e, read_wire_loop) (rw over tt)
        | inr on ↦
            rw (e, read_wire_loop)
              (rw on (
                loop_late-Lighter fuel deadline n _ (omega arith)
                  (omega (arith, length-append buffer []))))
      ]
    ]
loop-Lighter (a ∷ rest) (suc fuel) deadline n now sent buffer w =
    elim (Option-cases (split_terminator buffer)) [
      | inr ((wire, more), e) ↦
          rw (e, read_wire_loop) (omega (arith, split_terminator-length buffer wire more e))
      | inl e ↦ elim (Bool-cases (leb deadline now)) [
        | inl over ↦ rw (e, read_wire_loop) (rw over tt)
        | inr on ↦ elim (Bool-cases (leb a.after (deadline - now))) [
          | inl soon ↦
              rw (e, read_wire_loop)
                (rw (on, soon)
                  (loop-Lighter rest fuel deadline n (now + a.after) sent (buffer ++ a.chunk) (
                    omega
                      (arith, length-append buffer a.chunk, length-append a.chunk (stream rest)))))
          | inr far ↦
              rw (e, read_wire_loop)
                (rw (on, far)
                  (loop_late-Lighter fuel deadline n _ (omega arith)
                    (omega (arith, length-append buffer []))))
        ]
      ]
    ]

read_wire_frame-Lighter : (timeout : ℕ) (s : Link) → Lighter (weight s) (read_wire_frame timeout s)
unfolding read_wire_frame
read_wire_frame-Lighter timeout s =
    loop-Lighter s.arrivals (length s.arrivals + 2) (s.now + timeout) (weight s) s.now s.sent
      s.rx_buffer (omega arith)

-- A round that goes on returned a wire frame; a round that ends does not end for want of fuel.
classify_again :
    (saw saw' : Bool) (r : Result (List ℕ)) (s : Link)
    → classify saw r s ≡ again saw'
    → (wire : List ℕ) × (r ≡ ok wire)
unfolding classify
classify_again saw saw' (ok wire) s h = (wire, refl)
classify_again saw saw' (err e) s h = absurd (ground arith)

decoded_stop :
    (r q : Result (ℕ × List ℕ)) → r ≢ err out_of_fuel → decoded r ≡ stop q → q ≢ err out_of_fuel
unfolding decoded
decoded_stop (ok frame) q ends h p = ground arith
decoded_stop (err e) q ends h p = ground arith

classify_stop :
    (saw : Bool) (r : Result (List ℕ)) (s : Link) (q : Result (ℕ × List ℕ))
    → r ≢ err out_of_fuel
    → classify saw r s ≡ stop q
    → q ≢ err out_of_fuel
unfolding classify
classify_stop saw (ok []) s q ends h p = cc
classify_stop saw (ok (b ∷ wire)) s q ends h p =
    decoded_stop (decode_frame (b ∷ wire)) q (decode_frame-ne-out_of_fuel (b ∷ wire)) h p
classify_stop saw (err e) s q ends h p = ground arith

Lighter-ok :
    (n : ℕ) (p : Result (List ℕ) × Link) (wire : List ℕ)
    → p.0 ≡ ok wire
    → Lighter n p
    → weight p.1 < n
Lighter-ok n (ok w, s) wire e h = h
Lighter-ok n (err x, s) wire e h = cc

resume_total :
    (loop : Bool → Link → Result (ℕ × List ℕ) × Link) (o : Outcome) (s : Link)
    → ((saw : Bool) → o ≡ again saw → (loop saw s).0 ≢ err out_of_fuel)
    → ((q : Result (ℕ × List ℕ)) → o ≡ stop q → q ≢ err out_of_fuel)
    → (resume loop o s).0 ≢ err out_of_fuel
resume_total loop (again saw) s goes ends = goes saw refl
resume_total loop (stop q) s goes ends = ends q refl

timeout_error-ne-out_of_fuel :
    (saw : Bool) (s : Link)
    → ◌≢◌ {A = Result (ℕ × List ℕ)} (err (timeout_error saw s)) (err out_of_fuel)
timeout_error-ne-out_of_fuel saw s p = ground arith

read_decoded_loop_total :
    (fuel deadline : ℕ) (saw : Bool) (s : Link)
    → weight s < fuel
    → (read_decoded_loop fuel deadline saw s).0 ≢ err out_of_fuel
unfolding read_decoded_loop
read_decoded_loop_total zero deadline saw s enough = absurd (omega arith)
read_decoded_loop_total (suc fuel) deadline saw s enough = elim (Bool-cases (leb deadline s.now)) [
  | inl over ↦ rw over (timeout_error-ne-out_of_fuel saw s)
  | inr on ↦
      let got = read_wire_frame (deadline - s.now) s in
      rw on (
        resume_total (read_decoded_loop fuel deadline) (classify saw got.0 got.1) got.1
          (λ saw' goes.
            let (wire, returned) = classify_again saw saw' got.0 got.1 goes in
            let lighter : weight got.1 < weight s =
              Lighter-ok (weight s) got wire returned
                (read_wire_frame-Lighter (deadline - s.now) s) in
            read_decoded_loop_total fuel deadline saw' got.1 (omega arith))
          (λ q stops.
            classify_stop saw got.0 got.1 q (read_wire_frame-ne-out_of_fuel (deadline - s.now) s)
              stops))
]

-- A call of `_read_decoded_frame` ends with a frame or an exception, whatever arrives.
pub read_decoded_frame-ne-out_of_fuel :
    (timeout : ℕ) (s : Link) → (read_decoded_frame timeout s).0 ≢ err out_of_fuel
unfolding read_decoded_frame
read_decoded_frame-ne-out_of_fuel timeout s =
    read_decoded_loop_total (suc (weight s)) (s.now + timeout) false s (omega arith)
