-- ===== src/Servo/Cobs/Encoding.antt =====
-- What `cobs_encode` writes, as a recursion on the message: blocks of at most 254 non-zero bytes.
use rfmesh_workspace.Base.{
  ℕ, ◌+◌, ◌≡◌, sym, ap, ◌∙◌, List, [], ◌∷◌, ◌++◌, append_assoc, length, length-append, set,
  set-length_append, ◌==◌, if◌then◌else◌, true, false, Bool-cases, ==→eq, inl, inr, arith,
}
use rfmesh_workspace.Servo.Cobs.{Encoder, close_block, encode_byte, encode_loop, cobs_encode}

-- The code byte of the open block `block`, its bytes, and the blocks of the rest of the message.
unfoldable pub blocks : List ℕ → List ℕ → List ℕ
blocks block [] = (length block + 1) ∷ block
blocks block (byte ∷ rest) =
    let fresh = blocks [] rest in
    let longer = block ++ (byte ∷ []) in
    let same = blocks longer rest in
    if byte == 0
    then (length block + 1) ∷ (block ++ fresh)
    else if length block + 1 + 1 == 0xff
    then 0xff ∷ (longer ++ fresh)
    else same

-- The loop's state between two bytes: `done` is closed and `block` stands behind its open code.
abbrev open_state : List ℕ → List ℕ → Encoder
open_state done block = record {
  out = done ++ (0 ∷ block);
  code_index = length done;
  code = length block + 1;
}

finish : Encoder → List ℕ
finish s = set s.out s.code_index s.code

close_open :
    (done block : List ℕ)
    → close_block (open_state done block) ≡ open_state (done ++ ((length block + 1) ∷ block)) []
close_open done block = rw (set-length_append done 0 (length block + 1) block)

length-snoc : (block : List ℕ) (b : ℕ) → length (block ++ (b ∷ [])) ≡ length block + 1
length-snoc block b = omega (arith, length-append block (b ∷ []))

-- The loop's state after one more byte that is not 0.
push_open :
    (done block : List ℕ) (b : ℕ)
    → record (open_state done block) {
      out = (open_state done block).out ++ (b ∷ []);
      code = length block + 1 + 1;
    }
      ≡ open_state done (block ++ (b ∷ []))
push_open done block b = λ i. record {
  out = append_assoc done (0 ∷ block) (b ∷ []) i;
  code_index = length done;
  code = ap (λ (t : ℕ). t + 1) (sym (length-snoc block b)) i;
}

-- One round of the encoder's loop, in each of its three cases.
encode_zero :
    (done block : List ℕ) (b : ℕ)
    → (b == 0) ≡ true
    → encode_byte (open_state done block) b ≡ open_state (done ++ ((length block + 1) ∷ block)) []
unfolding encode_byte
encode_zero done block b e = rw e (close_open done block)

encode_full :
    (done block : List ℕ) (b : ℕ)
    → (b == 0) ≡ false
    → (length block + 1 + 1 == 0xff) ≡ true
    → encode_byte (open_state done block) b ≡ open_state (done ++ (0xff ∷ (block ++ (b ∷ [])))) []
unfolding encode_byte
encode_full done block b e full =
    rw (e, full)
      (ap close_block (push_open done block b)
        ∙ close_open done (block ++ (b ∷ []))
        ∙ ap (λ (n : ℕ). open_state (done ++ (n ∷ (block ++ (b ∷ [])))) [])
            (omega (arith, length-snoc block b, ==→eq (length block + 1 + 1) 0xff full)))

encode_more :
    (done block : List ℕ) (b : ℕ)
    → (b == 0) ≡ false
    → (length block + 1 + 1 == 0xff) ≡ false
    → encode_byte (open_state done block) b ≡ open_state done (block ++ (b ∷ []))
unfolding encode_byte
encode_more done block b e more = rw (e, more) (push_open done block b)

encode_loop-blocks :
    (bytes done block : List ℕ)
    → finish (encode_loop (open_state done block) bytes) ≡ done ++ blocks block bytes
unfolding finish encode_loop blocks
encode_loop-blocks [] done block = set-length_append done 0 (length block + 1) block
encode_loop-blocks (byte ∷ rest) done block = elim (Bool-cases (byte == 0)) [
  | inl z ↦
      let closed = done ++ ((length block + 1) ∷ block) in
      rw z (
        ap after (encode_zero done block byte z)
        ∙ encode_loop-blocks rest closed []
        ∙ append_assoc done ((length block + 1) ∷ block) (blocks [] rest))
  | inr nz ↦ elim (Bool-cases (length block + 1 + 1 == 0xff)) [
    | inl full ↦
        let whole = 0xff ∷ (block ++ (byte ∷ [])) in
        rw (nz, full)
          (ap after (encode_full done block byte nz full)
            ∙ encode_loop-blocks rest (done ++ whole) []
            ∙ append_assoc done whole (blocks [] rest))
    | inr more ↦
        rw (nz, more)
          (ap after (encode_more done block byte nz more)
            ∙ encode_loop-blocks rest done (block ++ (byte ∷ [])))
  ]
]
  where
    after : Encoder → List ℕ
    after s = finish (encode_loop s rest)

-- The encoder with its back-patched code bytes writes exactly the blocks of the message.
pub cobs_encode-eq-blocks : (bytes : List ℕ) → cobs_encode bytes ≡ blocks [] bytes
unfolding cobs_encode finish
cobs_encode-eq-blocks bytes = encode_loop-blocks bytes [] []
