-- ===== src/Dsss/Framing/Digits.antt =====
-- The digits an encoded frame is made of, and how many they are.
use mathlib.Core.Path.{subst}
use rfmesh_workspace.Base.{
  ℕ, ◌+◌, ◌*◌, ◌≡◌, refl, sym, ap, ◌∙◌, List, [], ◌∷◌, ◌++◌, Bool, true, false, ltb, ◌==◌, length,
  arith, All, All-append, length-append,
}
use rfmesh_workspace.Dsss.Errors.{Result, DsssError, ok, refuse, ◌>>◌, ◌>>=◌}
use rfmesh_workspace.Dsss.Crc.{crc16}
use rfmesh_workspace.Dsss.Bits.{byte_bits, bytes_to_bits, length-bytes_to_bits}
use rfmesh_workspace.Dsss.Pn.{
  generate_m_sequence, validate_lfsr_params, lfsr_bits, lfsr_step, feedback, feedback_bit_positions,
}
use rfmesh_workspace.Dsss.Spreading.{all_bits}
use rfmesh_workspace.Dsss.Spreading.Noise.{IsBit}
use rfmesh_workspace.Dsss.Framing.{encode_frame, preamble_bits, sync_word_bits, to_u16_be}
use rfmesh_workspace.Dsss.Framing.RoundTrip.{preamble, preamble_runs, length-preamble}

all_bits-IsBit : (bits : List ℕ) → all_bits bits ≡ true → All IsBit bits
all_bits-IsBit [] h = tt
all_bits-IsBit (b ∷ bits) h = (ground arith, all_bits-IsBit bits (ground arith))

bytes_to_bits-IsBit : (bytes : List ℕ) → All IsBit (bytes_to_bits bytes)
unfolding bytes_to_bits
bytes_to_bits-IsBit [] = tt
bytes_to_bits-IsBit (b ∷ bytes) =
    All-append IsBit (byte_bits b) (bytes_to_bits bytes)
      (
        omega arith,
        (
          omega arith,
          (
            omega arith,
            (omega arith, (omega arith, (omega arith, (omega arith, (omega arith, tt))))),
          ),
        ),
      )
      (bytes_to_bits-IsBit bytes)

preamble-IsBit : All IsBit preamble
preamble-IsBit = all_bits-IsBit preamble (
    unfold preamble_bits generate_m_sequence validate_lfsr_params lfsr_bits lfsr_step feedback
      feedback_bit_positions in
    refl)

-- A check that did not raise is passed.
passed :
    {A : Type 0} (test : Bool) (e : DsssError) (next : Result A) {a : A}
    → (refuse test e >> next) ≡ ok a
    → next ≡ ok a
passed true e next h = cc
passed false e next h = h

-- Six checks in a row.
passed_all :
    {A : Type 0} (t₁ t₂ t₃ t₄ t₅ t₆ : Bool) (e₁ e₂ e₃ e₄ e₅ e₆ : DsssError) (next : Result A)
    {a : A}
    → (refuse t₁ e₁
        >> (refuse t₂ e₂
            >> (refuse t₃ e₃ >> (refuse t₄ e₄ >> (refuse t₅ e₅ >> (refuse t₆ e₆ >> next))))))
      ≡ ok a
    → next ≡ ok a
passed_all t₁ t₂ t₃ t₄ t₅ t₆ e₁ e₂ e₃ e₄ e₅ e₆ next h =
    let after₅ = refuse t₆ e₆ >> next in
    let after₄ = refuse t₅ e₅ >> after₅ in
    let after₃ = refuse t₄ e₄ >> after₄ in
    let after₂ = refuse t₃ e₃ >> after₃ in
    let after₁ = refuse t₂ e₂ >> after₂ in
    passed t₆ e₆ next (
      passed t₅ e₅ after₅
        (passed t₄ e₄ after₄ (passed t₃ e₃ after₃ (passed t₂ e₂ after₂ (passed t₁ e₁ after₁ h)))))

ok_injective : {A : Type 0} (a b : A) → Path (Result A) (ok a) (ok b) → a ≡ b
ok_injective a b h = cc

abbrev written : List ℕ → List ℕ → Result (List ℕ)
written header payload = preamble_bits >>= λ front. ok (
    front
    ++ (sync_word_bits
        ++ (bytes_to_bits header
            ++ (bytes_to_bits payload ++ bytes_to_bits (to_u16_be (crc16 (header ++ payload)))))))

-- Whatever frame is encoded is a list of digits 0 and 1, of 144 beside eight for each byte of the
-- payload.
pub encode_frame_digits :
    (src dst seq : ℕ) (payload : List ℕ) (payload_max_bytes : ℕ) (bits : List ℕ)
    → encode_frame src dst seq payload payload_max_bytes ≡ ok bits
    → All IsBit bits × (length bits ≡ 144 + 8 * length payload)
unfolding encode_frame
encode_frame_digits src dst seq payload payload_max_bytes bits h =
    let header : List ℕ = src ∷ dst ∷ seq ∷ length payload ∷ [] in
    let check : List ℕ = to_u16_be (crc16 (header ++ payload)) in
    let H = bytes_to_bits header in
    let Q = bytes_to_bits payload in
    let C = bytes_to_bits check in
    let whole = preamble ++ (sync_word_bits ++ (H ++ (Q ++ C))) in
    let checked : written header payload ≡ ok bits =
      passed_all (ltb 0xff src) (ltb 0xff dst) (ltb 0xff seq)
        (ltb payload_max_bytes (length payload)) (payload_max_bytes == 0)
        (ltb 0xff (length payload)) _ _ _ _ _ _ (written header payload) h in
    let runs : written header payload ≡ ok whole = rw preamble_runs refl in
    let made : whole ≡ bits = ok_injective whole bits (sym runs ∙ checked) in
    let sync : length sync_word_bits ≡ 32 = unfold sync_word_bits bytes_to_bits in refl in
    let sync_bits : All IsBit sync_word_bits =
      all_bits-IsBit sync_word_bits (unfold sync_word_bits bytes_to_bits in refl) in
    let valid : All IsBit whole = All-append IsBit preamble _ preamble-IsBit (
      All-append IsBit sync_word_bits _ sync_bits (
        All-append IsBit H _ (bytes_to_bits-IsBit header)
          (All-append IsBit Q C (bytes_to_bits-IsBit payload) (bytes_to_bits-IsBit check)))) in
    let size : length whole ≡ 144 + 8 * length payload = omega (
      arith,
      length-preamble,
      sync,
      length-bytes_to_bits header,
      length-bytes_to_bits payload,
      length-bytes_to_bits check,
      length-append preamble (sync_word_bits ++ (H ++ (Q ++ C))),
      length-append sync_word_bits (H ++ (Q ++ C)),
      length-append H (Q ++ C),
      length-append Q C,
    ) in
    (subst (All IsBit) made valid, ap length (sym made) ∙ size)
