-- ===== src/Servo/Cobs/RoundTrip.antt =====
-- cobs.py: the bytes that `cobs_encode` writes, their number, and what `cobs_decode` makes of bytes.
use rfmesh_workspace.Base.{
  ℕ, zero, suc, ◌+◌, ◌/◌, ◌≤◌, ◌<◌, ◌≡◌, ◌≢◌, refl, sym, ap, ◌∙◌, List, [], ◌∷◌, ◌++◌, append_assoc,
  append-nil, length, length-append, ltb, ◌==◌, if◌then◌else◌, Bool-cases, ==→eq, ==→ne,
  Option-cases, get_elem?, inl, inr, arith, All, All-append, ◌&&◌, get_elem?-length_append,
  get_elem?-length, slice-block, true, false,
}
use rfmesh_workspace.Servo.Errors.{ok, err, out_of_fuel}
use rfmesh_workspace.Servo.Crc.Detection.{IsByte}
use rfmesh_workspace.Servo.Cobs.{cobs_encode, decode_loop, cobs_decode}
use rfmesh_workspace.Servo.Cobs.Encoding.{blocks, cobs_encode-eq-blocks}

-- A byte that may stand in a frame.
abbrev pub IsStuffed : ℕ → Type 0
IsStuffed b = (0 < b) × (b < 256)

blocks-IsStuffed :
    (bytes block : List ℕ)
    → All IsByte bytes
    → All IsStuffed block
    → length block < 254
    → All IsStuffed (blocks block bytes)
unfolding blocks
blocks-IsStuffed [] block h hb short = (omega arith, hb)
blocks-IsStuffed (b ∷ rest) block h hb short =
    let fresh = blocks-IsStuffed rest [] h.1 tt (omega arith) in
    elim (Bool-cases (b == 0)) [
      | inl z ↦ rw z (omega arith, All-append IsStuffed block (blocks [] rest) hb fresh)
      | inr nz ↦
          let longer : All IsStuffed (block ++ (b ∷ [])) =
            All-append IsStuffed block (b ∷ []) hb (omega (arith, ==→ne b 0 nz)) in
          elim (Bool-cases (length block + 1 + 1 == 0xff)) [
            | inl full ↦
                rw (nz, full)
                  (
                    omega arith,
                    All-append IsStuffed (block ++ (b ∷ [])) (blocks [] rest) longer fresh,
                  )
            | inr more ↦
                rw (nz, more)
                  (blocks-IsStuffed rest (block ++ (b ∷ [])) h.1 longer
                    (omega (arith, ==→ne _ _ more, length-append block (b ∷ []))))
          ]
    ]

-- Stuffing bytes gives bytes that are not 0.
pub cobs_encode-IsStuffed : (bytes : List ℕ) → All IsByte bytes → All IsStuffed (cobs_encode bytes)
cobs_encode-IsStuffed bytes h =
    rw (cobs_encode-eq-blocks bytes) (blocks-IsStuffed bytes [] h tt (omega arith))

length-blocks :
    (bytes block : List ℕ)
    → length block < 254
    → (length block + length bytes + 1 ≤ length (blocks block bytes))
      × (length (blocks block bytes)
          ≤ length block + length bytes + 1 + (length block + length bytes) / 254)
unfolding blocks
length-blocks [] block short = omega arith
length-blocks (b ∷ rest) block short = ground (
  arith,
  length-blocks rest [],
  length-blocks rest (block ++ (b ∷ [])),
  length-append block (b ∷ []),
  length-append block (blocks [] rest),
  length-append (block ++ (b ∷ [])) (blocks [] rest),
)

-- One round of the decoder at the code byte of a block, with the blocks before it in `front` and
-- what follows it in `back`.
decode_block :
    (fuel : ℕ) (front block back out : List ℕ)
    → decode_loop (suc fuel) (front ++ ((length block + 1) ∷ (block ++ back))) (length front) out
      ≡ decode_loop fuel
          (front ++ ((length block + 1) ∷ block) ++ back)
          (length (front ++ ((length block + 1) ∷ block)))
          (if ltb (length block + 1) 0xff && ltb 0 (length back)
            then out ++ block ++ (0 ∷ [])
            else out ++ block)
unfolding decode_loop
decode_block fuel front block back out =
    let code = length block + 1 in
    let moved : length (front ++ (code ∷ block)) ≡ length front + code =
      omega (arith, length-append front (code ∷ block)) in
    rw (moved, append_assoc front (code ∷ block) back)
      (rw (get_elem?-length_append front code (block ++ back), decode_loop)
        (rw (slice-block front code block back, positive, within, more) refl))
  where
    total :
        length (front ++ ((length block + 1) ∷ (block ++ back)))
        ≡ length front + (length block + 1) + length back
    total = omega (
      arith,
      length-append front ((length block + 1) ∷ (block ++ back)),
      length-append block back,
    )

    positive : (length block + 1 == 0) ≡ false
    positive = ground arith

    within :
        ltb
          (length (front ++ ((length block + 1) ∷ (block ++ back))))
          (length front + (length block + 1))
        ≡ false
    within = ground (arith, total)

    more :
        ltb
          (length front + (length block + 1))
          (length (front ++ ((length block + 1) ∷ (block ++ back))))
        ≡ ltb 0 (length back)
    more = ground (arith, total)

decode_end :
    (fuel : ℕ) (bytes out : List ℕ) → decode_loop (suc fuel) bytes (length bytes) out ≡ ok out
unfolding decode_loop
decode_end fuel bytes out = rw (get_elem?-length bytes, decode_loop) refl

-- At a block boundary of what the encoder wrote, the decoder appends the rest of the message.
decode_loop-blocks :
    (bytes : List ℕ) (fuel : ℕ) (front block out : List ℕ)
    → length block < 254
    → length (blocks block bytes) ≤ fuel
    → decode_loop (suc fuel) (front ++ blocks block bytes) (length front) out
      ≡ ok (out ++ block ++ bytes)
unfolding blocks
decode_loop-blocks [] zero front block out short enough = absurd (omega arith)
decode_loop-blocks [] (suc fuel) front block out short enough =
    ap (λ l. decode_loop (suc (suc fuel)) (front ++ ((length block + 1) ∷ l)) (length front) out)
      (sym (append-nil block))
    ∙ decode_block (suc fuel) front block [] out
    ∙ rw (append-nil, no_more, append-nil)
        (decode_end fuel (front ++ ((length block + 1) ∷ block)) (out ++ block))
  where
    no_more : (ltb (length block + 1) 0xff && false) ≡ false
    no_more = ground arith
decode_loop-blocks (b ∷ rest) zero front block out short enough =
    absurd (omega (arith, length-blocks (b ∷ rest) block short))
decode_loop-blocks (b ∷ rest) (suc fuel) front block out short enough = elim (Bool-cases (b == 0)) [
  | inl z ↦
      let room : suc (length (block ++ blocks [] rest)) ≤ suc fuel = rw z at enough in
      rw z (
        decode_block (suc fuel) front block (blocks [] rest) out
        ∙ rw (separated) (
            decode_loop-blocks rest fuel (front ++ ((length block + 1) ∷ block)) []
              (out ++ block ++ (0 ∷ [])) (omega arith)
              (omega (arith, room, length-append block (blocks [] rest)))
            ∙ ap ok (simp (append_assoc, ==→eq b 0 z))))
  | inr nz ↦ elim (Bool-cases (length block + 1 + 1 == 0xff)) [
    | inl full ↦
        let filled : 0xff ≡ length (block ++ (b ∷ [])) + 1 =
          omega (arith, ==→eq (length block + 1 + 1) 0xff full, length-append block (b ∷ [])) in
        let room : suc (length (block ++ (b ∷ []) ++ blocks [] rest)) ≤ suc fuel =
          rw (nz, full) at enough in
        rw (nz, full)
          (ap
              (λ (n : ℕ).
                decode_loop (suc (suc fuel)) (front ++ (n ∷ (block ++ (b ∷ []) ++ blocks [] rest)))
                  (length front) out)
              filled
            ∙ decode_block (suc fuel) front (block ++ (b ∷ [])) (blocks [] rest) out
            ∙ rw (joined filled) (
                decode_loop-blocks rest fuel
                  (front ++ ((length (block ++ (b ∷ [])) + 1) ∷ (block ++ (b ∷ [])))) []
                  (out ++ (block ++ (b ∷ []))) (omega arith)
                  (omega (arith, room, length-append (block ++ (b ∷ [])) (blocks [] rest)))
                ∙ ap ok (simp append_assoc)))
    | inr more ↦
        let room : length (blocks (block ++ (b ∷ [])) rest) ≤ suc fuel = rw (nz, more) at enough in
        rw (nz, more)
          (decode_loop-blocks rest (suc fuel) front (block ++ (b ∷ [])) out
              (omega (arith, ==→ne _ _ more, length-append block (b ∷ []))) room
            ∙ ap ok (simp append_assoc))
  ]
]
  where
    separated : (ltb (length block + 1) 0xff && ltb 0 (length (blocks [] rest))) ≡ true
    separated = ground (arith, length-blocks rest [])

    joined :
        0xff ≡ length (block ++ (b ∷ [])) + 1
        → (ltb (length (block ++ (b ∷ [])) + 1) 0xff && ltb 0 (length (blocks [] rest))) ≡ false
    joined e = ground arith

-- Decoding what was encoded gives the message back, whatever it is.
pub cobs_decode-cobs_encode : (bytes : List ℕ) → cobs_decode (cobs_encode bytes) ≡ ok bytes
unfolding cobs_decode
cobs_decode-cobs_encode bytes =
    let coded = blocks [] bytes in
    let filled : (length coded == 0) ≡ false = ground (arith, length-blocks bytes []) in
    rw (cobs_encode-eq-blocks bytes, filled)
      (decode_loop-blocks bytes (length coded) [] [] [] (omega arith) (omega arith))

-- The encoding of n bytes takes at least n + 1 bytes, and at most n + 1 + n / 254.
pub length-cobs_encode :
    (bytes : List ℕ)
    → (length bytes + 1 ≤ length (cobs_encode bytes))
      × (length (cobs_encode bytes) ≤ length bytes + 1 + length bytes / 254)
length-cobs_encode bytes =
    rw (cobs_encode-eq-blocks bytes) (omega (arith, length-blocks bytes [] (omega arith)))

-- The decoder takes a single block as it stands: a byte 0x00 inside it is not reported.
pub cobs_decode_one_block : (block : List ℕ) → cobs_decode ((length block + 1) ∷ block) ≡ ok block
unfolding cobs_decode
cobs_decode_one_block block =
    let filled : (suc (length block) == 0) ≡ false = ground arith in
    let no_more : (ltb (length block + 1) 0xff && false) ≡ false = ground arith in
    rw filled (
      ap (λ l. decode_loop (suc (suc (length block))) ((length block + 1) ∷ l) 0 [])
        (sym (append-nil block))
      ∙ decode_block (suc (length block)) [] block [] []
      ∙ rw (append-nil, no_more) (decode_end (length block) ((length block + 1) ∷ block) block))

decode_loop-ne-out_of_fuel :
    (fuel : ℕ) (bytes : List ℕ) (i : ℕ) (out : List ℕ)
    → i ≤ length bytes
    → length bytes < i + fuel
    → decode_loop fuel bytes i out ≢ err out_of_fuel
unfolding decode_loop
decode_loop-ne-out_of_fuel zero bytes i out within enough = absurd (omega arith)
decode_loop-ne-out_of_fuel (suc fuel) bytes i out within enough =
    elim (Option-cases (get_elem? bytes i)) [
      | inl over ↦ rw (over, decode_loop) (λ p. cc)
      | inr (code, found) ↦
          rw (found, decode_loop)
            (elim (Bool-cases (code == 0)) [
              | inl z ↦ rw z (λ p. cc)
              | inr nz ↦ elim (Bool-cases (ltb (length bytes) (i + code))) [
                | inl over ↦ rw (nz, over) (λ p. cc)
                | inr fits ↦
                    let below : i + code ≤ length bytes = ground arith in
                    let moved : 0 < code = ground arith in
                    rw (nz, fits)
                      (decode_loop-ne-out_of_fuel fuel bytes (i + code) _ below (omega arith))
              ]
            ])
    ]

-- The decoder's loop ends on every input.
pub cobs_decode-ne-out_of_fuel : (bytes : List ℕ) → cobs_decode bytes ≢ err out_of_fuel
unfolding cobs_decode
cobs_decode-ne-out_of_fuel bytes = elim (Bool-cases (length bytes == 0)) [
  | inl z ↦ rw z (λ p. cc)
  | inr nz ↦
      rw nz (decode_loop-ne-out_of_fuel (suc (length bytes)) bytes 0 [] (omega arith) (omega arith))
]
