-- ===== src/Servo/Link/Resync.antt =====
-- `_read_decoded_frame` on a line with malformed frames.
use rfmesh_workspace.Base.{
  ℕ, zero, suc, ◌+◌, ◌-◌, ◌≤◌, ◌<◌, ◌≡◌, refl, ap, ◌∙◌, List, [], ◌∷◌, ◌++◌, Bool, true, false, leb,
  length, length-append, inl, inr, ◌⊎◌, arith, All, append_assoc,
}
use rfmesh_workspace.Servo.Errors.{Result, ok, err, frame_error, FrameFault}
use rfmesh_workspace.Servo.Protocol.{decode_frame}
use rfmesh_workspace.Servo.Link.{
  Link, read_wire_frame, read_decoded_loop, read_decoded_frame, classify, decoded, Outcome, again,
  stop, resume, stream,
}
use rfmesh_workspace.Servo.Link.Reassembly.{IsNonzero, delay, Took, read_wire_frame_reassembles}

-- A piece between two terminators that is dropped: nothing at all, or bytes that are no frame.
abbrev pub IsNoise : List ℕ → Type 0
IsNoise wire =
    All IsNonzero wire
    × ((wire ≡ []) ⊎ ((fault : FrameFault) × (decode_frame wire ≡ err (frame_error fault))))

abbrev pub terminated : List (List ℕ) → List ℕ
terminated [] = []
terminated (wire ∷ rest) = wire ++ (0 ∷ terminated rest)

classify_noise :
    (saw : Bool) (wire : List ℕ) (s : Link)
    → IsNoise wire
    → (saw' : Bool) × (classify saw (ok wire) s ≡ again saw')
unfolding classify decoded
classify_noise saw [] s h = (saw, refl)
classify_noise saw (b ∷ wire) s (nonzero, inl e) = absurd (cc)
classify_noise saw (b ∷ wire) s (nonzero, inr (fault, e)) = (true, rw e refl)

classify_frame :
    (saw : Bool) (wire : List ℕ) (s : Link) (frame : ℕ × List ℕ)
    → decode_frame wire ≡ ok frame
    → classify saw (ok wire) s ≡ stop (ok frame)
unfolding classify decoded
classify_frame saw [] s frame e = unfold decode_frame in cc
classify_frame saw (b ∷ wire) s frame e = rw e refl

read_decoded_step :
    (fuel deadline : ℕ) (saw : Bool) (s : Link) {r : Result (List ℕ)} {s' : Link} {o : Outcome}
    → s.now < deadline
    → read_wire_frame (deadline - s.now) s ≡ (r, s')
    → classify saw r s' ≡ o
    → read_decoded_loop (suc fuel) deadline saw s ≡ resume (read_decoded_loop fuel deadline) o s'
unfolding read_decoded_loop
read_decoded_step fuel deadline saw s {s'} on runs outcome =
    let not_over : leb deadline s.now ≡ false = ground arith in
    rw not_over (
      ap (λ got. resume (read_decoded_loop fuel deadline) (classify saw got.0 got.1) got.1) runs
      ∙ ap (λ o. resume (read_decoded_loop fuel deadline) o s') outcome)

read_decoded_loop_resync :
    (noise : List (List ℕ)) (fuel deadline : ℕ) (saw : Bool) (s : Link) (wire tail : List ℕ)
    (frame : ℕ × List ℕ)
    → All IsNoise noise
    → All IsNonzero wire
    → decode_frame wire ≡ ok frame
    → s.rx_buffer ++ stream s.arrivals ≡ terminated noise ++ (wire ++ (0 ∷ tail))
    → s.now + delay s.arrivals < deadline
    → length noise < fuel
    → (s' : Link) × (read_decoded_loop fuel deadline saw s ≡ (ok frame, s')) × Took s tail s'
read_decoded_loop_resync noise zero deadline saw s wire tail frame hn hw good split early enough =
    absurd (omega arith)
read_decoded_loop_resync [] (suc fuel) deadline saw s wire tail frame hn hw good split early
      enough =
    let (s', runs, took) =
      read_wire_frame_reassembles (deadline - s.now) s wire tail hw split (omega arith) in
    (
      s',
      read_decoded_step fuel deadline saw s (omega arith) runs
          (classify_frame saw wire s' frame good),
      took,
    )
read_decoded_loop_resync (piece ∷ noise) (suc fuel) deadline saw s wire tail frame hn hw good split
      early enough =
    let behind : List ℕ = terminated noise ++ (wire ++ (0 ∷ tail)) in
    let (s₁, runs, took) =
      read_wire_frame_reassembles (deadline - s.now) s piece behind hn.0.0
        (split ∙ append_assoc piece (0 ∷ terminated noise) (wire ++ (0 ∷ tail))) (omega arith) in
    let (saw', dropped) = classify_noise saw piece s₁ hn.0 in
    let (s₂, ends, took') =
      read_decoded_loop_resync noise fuel deadline saw' s₁ wire tail frame hn.1 hw good took.left
        (omega (arith, took.clock)) (omega arith) in
    (
      s₂,
      read_decoded_step fuel deadline saw s (omega arith) runs dropped ∙ ends,
      record {
        left = took'.left;
        clock = took'.clock ∙ took.clock;
        silent = took'.silent ∙ took.silent;
      },
    )

length-terminated : (noise : List (List ℕ)) → length noise ≤ length (terminated noise)
length-terminated [] = omega arith
length-terminated (piece ∷ noise) =
    omega (arith, length-append piece (0 ∷ terminated noise), length-terminated noise)

-- If, within the timeout, any number of empty or malformed frames and then a good frame come in,
-- split in whatever way, the good frame is returned, and the bytes behind it are kept.
pub read_decoded_frame_resync :
    (noise : List (List ℕ)) (timeout : ℕ) (s : Link) (wire tail : List ℕ) (frame : ℕ × List ℕ)
    → All IsNoise noise
    → All IsNonzero wire
    → decode_frame wire ≡ ok frame
    → s.rx_buffer ++ stream s.arrivals ≡ terminated noise ++ (wire ++ (0 ∷ tail))
    → delay s.arrivals < timeout
    → (s' : Link) × (read_decoded_frame timeout s ≡ (ok frame, s')) × Took s tail s'
unfolding read_decoded_frame
read_decoded_frame_resync noise timeout s wire tail frame hn hw good split early =
    read_decoded_loop_resync noise (suc (length s.rx_buffer + length (stream s.arrivals)))
      (s.now + timeout) false s wire tail frame hn hw good split (omega arith)
      (omega (
        arith,
        ap length split,
        length-append s.rx_buffer (stream s.arrivals),
        length-append (terminated noise) (wire ++ (0 ∷ tail)),
        length-terminated noise,
      ))
