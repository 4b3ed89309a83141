-- ===== src/Sdr/Capture/Recorded.antt =====
-- A recording that is closed, and what a reader finds in it.
use mathlib.Core.Path.{ap₂}
use native.Mathlib.Nat.{zero-add}
use rfmesh_workspace.Base.{
  ℕ, ◌+◌, ◌*◌, ◌/◌, ◌%◌, ◌<◌, ◌≤◌, ◌≡◌, refl, sym, ap, ◌∙◌, List, [], ◌∷◌, ◌++◌, Option, none, some,
  true, false, ◌==◌, length, take, All, arith, length-take, length-append, append-nil, append_assoc,
  ==_refl, Bool-cases, inl, inr,
}
use rfmesh_workspace.Base.Int.{ℤ, pos, negsuc, pos_part, neg_part}
use rfmesh_workspace.Base.Results.{Try, ok, err, ◌>>=◌}
use rfmesh_workspace.Sdr.Capture.{
  CaptureError, malformed_iq_file, Iq, to_byte, from_byte, complex64_to_uint8_pair, pairs,
  uint8_pair_to_complex64, IqMetadata, make_metadata, Sidecars, Files, IqRecorder, make_recorder,
  start, write, close, validation_error,
}
use rfmesh_workspace.Sdr.Capture.Reader.{IqReader, make_reader, read_all}

-- What is left of a component when it has been a byte.
abbrev pub settled : ℤ → ℤ
settled x = from_byte (to_byte x)

abbrev pub settle : List Iq → List Iq
settle [] = []
settle (x ∷ xs) = record { re = settled x.re; im = settled x.im } ∷ settle xs

-- Within the range from -1 to 1, a component is off by half a step of a byte at most.
abbrev pub IsNear : ℤ → ℤ → Type 0
IsNear a b =
    (pos_part a + neg_part b ≤ pos_part b + neg_part a + 256)
    × (pos_part b + neg_part a ≤ pos_part a + neg_part b + 256)

settled-IsNear : (x : ℤ) → pos_part x ≤ 65280 → neg_part x ≤ 65280 → IsNear (settled x) x
unfolding to_byte from_byte
settled-IsNear (pos n) h k = ground arith
settled-IsNear (negsuc n) h k = ground arith

abbrev pub IsInRange : Iq → Type 0
IsInRange x =
    (pos_part x.re ≤ 65280)
    × (neg_part x.re ≤ 65280)
    × (pos_part x.im ≤ 65280)
    × (neg_part x.im ≤ 65280)

-- As many samples, each near its own in both components.
abbrev pub AreNear : List Iq → List Iq → Type 0
AreNear [] [] = Unit
AreNear [] (y ∷ ys) = ⊥
AreNear (x ∷ xs) [] = ⊥
AreNear (x ∷ xs) (y ∷ ys) = IsNear x.re y.re × IsNear x.im y.im × AreNear xs ys

settle-AreNear : (xs : List Iq) → All IsInRange xs → AreNear (settle xs) xs
settle-AreNear [] h = tt
settle-AreNear (x ∷ xs) h =
    (settled-IsNear x.re h.0.0 h.0.1, settled-IsNear x.im h.0.2 h.0.3, settle-AreNear xs h.1)

abbrev pub joined_blocks : List (List Iq) → List Iq
joined_blocks [] = []
joined_blocks (b ∷ blocks) = b ++ joined_blocks blocks

module _ {X : Type 0} where
  unfoldable pub write_all :
      List (List Iq) → IqRecorder → Files X → Try CaptureError (IqRecorder × Files X)
  write_all [] r files = ok (r, files)
  write_all (b ∷ blocks) r files = write b r files >>= λ s. write_all blocks s.0 s.1

encode-append :
    (xs ys : List Iq)
    → complex64_to_uint8_pair (xs ++ ys) ≡ complex64_to_uint8_pair xs ++ complex64_to_uint8_pair ys
unfolding complex64_to_uint8_pair
encode-append [] ys = refl
encode-append (x ∷ xs) ys = ap (λ bs. to_byte x.re ∷ (to_byte x.im ∷ bs)) (encode-append xs ys)

length-encode : (xs : List Iq) → length (complex64_to_uint8_pair xs) ≡ 2 * length xs
unfolding complex64_to_uint8_pair
length-encode [] = refl
length-encode (x ∷ xs) = omega (arith, length-encode xs)

pairs-encode : (xs : List Iq) → pairs (complex64_to_uint8_pair xs) ≡ settle xs
unfolding pairs complex64_to_uint8_pair
pairs-encode [] = refl
pairs-encode (x ∷ xs) =
    ap (λ ys. record { re = settled x.re; im = settled x.im } ∷ ys) (pairs-encode xs)

module _ (rate center : ℕ) (source notes : Option ℕ) (now : ℕ) where
  -- The recorder between `start` and `close`, with n samples written.
  abbrev pub running : ℕ → IqRecorder
  running n = record {
    sample_rate_hz = rate;
    center_freq_hz = center;
    source = source;
    notes = notes;
    handle = true;
    n_samples_written = n;
    start_time_utc = some now;
    closed = false;
  }

  write_all_lem :
      {X : Type 0} (blocks : List (List Iq)) (n : ℕ) (bytes : List ℕ) (sidecar : Option X)
      → write_all blocks (running n) (record { payload = some bytes; sidecar = sidecar })
        ≡ ok (
          running (n + length (joined_blocks blocks)),
          record {
            payload = some (bytes ++ complex64_to_uint8_pair (joined_blocks blocks));
            sidecar = sidecar;
          },
        )
  unfolding write_all write complex64_to_uint8_pair
  write_all_lem [] n bytes sidecar =
      let count : n ≡ n + 0 = omega arith in
      ap₂ (λ k bs. ok (running k, record { payload = some bs; sidecar = sidecar })) count
        (sym (append-nil bytes))
  write_all_lem (b ∷ blocks) n bytes sidecar =
      let rest = joined_blocks blocks in
      let count : n + length b + length rest ≡ n + length (b ++ rest) =
        omega (arith, length-append b rest) in
      let coded : (bytes ++ complex64_to_uint8_pair b) ++ complex64_to_uint8_pair rest
          ≡ bytes ++ complex64_to_uint8_pair (b ++ rest) =
        append_assoc bytes (complex64_to_uint8_pair b) (complex64_to_uint8_pair rest)
        ∙ ap (λ bs. bytes ++ bs) (sym (encode-append b rest)) in
      write_all_lem blocks (n + length b) (bytes ++ complex64_to_uint8_pair b) sidecar
      ∙ ap₂ (λ k bs. ok (running k, record { payload = some bs; sidecar = sidecar })) count coded

abbrev pub sidecar_of : ℕ → ℕ → Option ℕ → Option ℕ → ℕ → ℕ → IqMetadata
sidecar_of rate center source notes now n = record {
  sample_rate_hz = rate;
  center_freq_hz = center;
  n_samples = n;
  start_time_utc = now;
  source = source;
  notes = notes;
}

module _ {X : Type 0} (json : Sidecars X) where
  open json use {model_dump_json, validate-dump}

  -- The files behind `close`, if it did not raise.
  abbrev closed_files :
      Try CaptureError (Unit {0}) × IqRecorder × Files X → Try CaptureError (Files X)
  closed_files (ok u, r, files) = ok files
  closed_files (err e, r, files) = err e

  -- A recording: a new recorder, `start`, a `write` for each block, and `close`.
  unfoldable pub recording :
      ℕ → ℕ → Option ℕ → Option ℕ → ℕ → List (List Iq) → Files X → Try CaptureError (Files X)
  recording rate center source notes now blocks files = do
    r ← make_recorder rate center source notes
    (r', files') ← start now r files
    (r'', files'') ← write_all blocks r' files'
    closed_files (close json r'' files'')

  recording_lem :
      (rate center : ℕ) (source notes : Option ℕ) (now : ℕ) (blocks : List (List Iq))
      (files : Files X)
      → 0 < rate
      → 0 < center
      → 0 < length (joined_blocks blocks)
      → recording rate center source notes now blocks files
        ≡ ok (record {
          payload = some (complex64_to_uint8_pair (joined_blocks blocks));
          sidecar = some (
              model_dump_json
                (sidecar_of rate center source notes now (length (joined_blocks blocks))));
        })
  unfolding recording start close make_metadata make_recorder
  recording_lem rate center source notes now blocks files hr hc some_samples =
      let xs = joined_blocks blocks in
      let rate_ok : (rate == 0) ≡ false = ground arith in
      let center_ok : (center == 0) ≡ false = ground arith in
      let some_ok : (length xs == 0) ≡ false = ground arith in
      rw (rate_ok, center_ok, write_all_lem rate center source notes now blocks 0 [] files.sidecar)
        (rw (zero-add (length xs), rate_ok, center_ok, some_ok) refl)

  -- A recording of positive rates and of at least one sample, all of them between -1 and 1, closes
  -- without an error. A reader opens its files, reports the number of samples that were written and the
  -- sidecar's metadata, and reads as many samples, each within half a step of a byte of the written one.
  pub read_all-recording :
      (rate center : ℕ) (source notes : Option ℕ) (now : ℕ) (blocks : List (List Iq))
      (files : Files X)
      → 0 < rate
      → 0 < center
      → 0 < length (joined_blocks blocks)
      → All IsInRange (joined_blocks blocks)
      → (written : List ℕ) × (r : IqReader) × (closed : Files X) × (samples : List Iq) × (recording
            rate center source notes now blocks files
          ≡ ok closed)
        × (closed.payload ≡ some written)
        × (make_reader json closed ≡ ok r)
        × (r.n_samples ≡ length (joined_blocks blocks))
        × (r.metadata ≡ some (sidecar_of rate center source notes now r.n_samples))
        × (read_all r written ≡ ok samples)
        × AreNear samples (joined_blocks blocks)
  unfolding make_reader read_all uint8_pair_to_complex64
  read_all-recording rate center source notes now blocks files hr hc some_samples ranges =
      let xs = joined_blocks blocks in
      let bytes = complex64_to_uint8_pair xs in
      let m = sidecar_of rate center source notes now (length xs) in
      let size = length-encode xs in
      let even : (length bytes % 2 == 0) ≡ true = ground arith in
      let half : length bytes / 2 ≡ length xs = omega arith in
      let same : (length xs == length xs) ≡ true = ==_refl (length xs) in
      let own : (length bytes == length bytes) ≡ true = ==_refl (length bytes) in
      (
        bytes,
        record { byte_count = length bytes; n_samples = length xs; metadata = some m },
        _,
        settle xs,
        recording_lem rate center source notes now blocks files hr hc some_samples,
        refl,
        rw (even, validate-dump m (hr, hc, some_samples), half, same) refl,
        refl,
        refl,
        rw (own, even) (ap ok (pairs-encode xs)),
        settle-AreNear xs ranges,
      )

  short_payload :
      (bytes : List ℕ) (text : X) (m : IqMetadata)
      → json.model_validate_json text ≡ some m
      → length bytes < 2 * m.n_samples
      → make_reader json (record { payload = some bytes; sidecar = some text })
        ≡ err malformed_iq_file
  unfolding make_reader
  short_payload bytes text m valid short = elim (Bool-cases (length bytes % 2 == 0)) [
    | inr odd ↦ rw odd refl
    | inl even ↦
        let other : (m.n_samples == length bytes / 2) ≡ false = ground arith in
        rw (even, valid, other) refl
  ]

  -- If of such a recording's payload only the first bytes are left, fewer than were written, a reader
  -- does not open it: the file is malformed.
  pub make_reader_truncated :
      (rate center : ℕ) (source notes : Option ℕ) (now : ℕ) (blocks : List (List Iq))
      (files closed : Files X) (written : List ℕ) (left : ℕ)
      → 0 < rate
      → 0 < center
      → 0 < length (joined_blocks blocks)
      → recording rate center source notes now blocks files ≡ ok closed
      → closed.payload ≡ some written
      → left < length written
      → make_reader json (record closed { payload = some (take left written) })
        ≡ err malformed_iq_file
  unfolding make_reader
  make_reader_truncated rate center source notes now blocks files closed written left hr hc
        some_samples h k short =
      let xs = joined_blocks blocks in
      let m = sidecar_of rate center source notes now (length xs) in
      let made : closed ≡ record {
        payload = some (complex64_to_uint8_pair xs);
        sidecar = some (model_dump_json m);
      } =
        ok_injective closed _
          (sym h ∙ recording_lem rate center source notes now blocks files hr hc some_samples) in
      let bytes : written ≡ complex64_to_uint8_pair xs =
        some_injective written _ (sym k ∙ ap (λ (f : Files X). f.payload) made) in
      let fewer : length (take left written) < 2 * length xs =
        omega (arith, length-take left written, length-encode xs, ap length bytes) in
      ap (λ (f : Files X). make_reader json (record f { payload = some (take left written) })) made
      ∙ short_payload (take left written) (model_dump_json m) m
          (validate-dump m (hr, hc, some_samples)) fewer
    where
      ok_injective : (a b : Files X) → Path (Try CaptureError (Files X)) (ok a) (ok b) → a ≡ b
      ok_injective a b e = cc

      some_injective : (a b : List ℕ) → Path (Option (List ℕ)) (some a) (some b) → a ≡ b
      some_injective a b e = cc

  -- A recording of positive rates without a sample, over no earlier sidecar: `close` raises the
  -- validation error, the empty payload stays on the disk without a sidecar, and a reader opens it as
  -- a capture of no samples.
  pub close_empty :
      (rate center : ℕ) (source notes : Option ℕ) (now : ℕ)
      → 0 < rate
      → 0 < center
      → (r : IqRecorder) × (close json
            (running rate center source notes now 0)
            (record { payload = some []; sidecar = none })
          ≡ (err validation_error, r, record { payload = some []; sidecar = none }))
        × (make_reader json (record { payload = some []; sidecar = none })
            ≡ ok (record { byte_count = 0; n_samples = 0; metadata = none }))
  unfolding close make_metadata make_reader
  close_empty rate center source notes now hr hc =
      let rate_ok : (rate == 0) ≡ false = ground arith in
      let center_ok : (center == 0) ≡ false = ground arith in
      (
        record (running rate center source notes now 0) { handle = false },
        rw (rate_ok, center_ok) refl,
        refl,
      )
