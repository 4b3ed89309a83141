-- ===== src/Sdr/Capture/Reader.antt =====
-- packages/rfmesh-sdr/src/rfmesh_sdr/io/reader.py: the checks on opening, the bulk read and the chunks.
use mathlib.Core.Path.{subst}
use rfmesh_workspace.Base.{
  ℕ, zero, suc, ◌*◌, ◌/◌, ◌%◌, ◌<◌, ◌≤◌, ◌≡◌, refl, sym, ap, ◌∙◌, List, [], ◌∷◌, ◌++◌, Option, none,
  some, true, false, ◌==◌, not, if◌then◌else◌, length, take, drop, All, arith, length-take,
  length-drop,
}
use rfmesh_workspace.Base.Results.{Try, ok, err, refuse, ◌>>◌, ◌>>=◌}
use rfmesh_workspace.Sdr.Capture.{
  CaptureError, malformed_iq_file, file_not_found, value_error, bytes_per_sample, Iq, pairs,
  from_byte, uint8_pair_to_complex64, IqMetadata, Sidecars, Files,
}

pub record IqReader : Type 0 where
  pub byte_count : ℕ
  pub n_samples : ℕ
  pub metadata : Option IqMetadata

abbrev pub validated : Option IqMetadata → Try CaptureError (Option IqMetadata)
validated none = err malformed_iq_file
validated (some m) = ok (some m)

-- `_load_sidecar_if_present`
unfoldable pub load_sidecar_if_present :
    {X : Type 0} → Sidecars X → Option X → Try CaptureError (Option IqMetadata)
load_sidecar_if_present json none = ok none
load_sidecar_if_present json (some text) = validated (json.model_validate_json text)

-- The check of the sidecar's count against the file's.
abbrev pub check_count : ℕ → Option IqMetadata → Try CaptureError (Unit {0})
check_count n none = ok tt
check_count n (some m) = refuse (not (m.n_samples == n)) malformed_iq_file

-- `IQReader.__init__`
unfoldable pub open_payload :
    {X : Type 0} → Sidecars X → Option (List ℕ) → Option X → Try CaptureError IqReader
unfolding load_sidecar_if_present
open_payload json none sidecar = err file_not_found
open_payload json (some bytes) sidecar = do
  refuse (not (length bytes % bytes_per_sample == 0)) malformed_iq_file
  metadata ← load_sidecar_if_present json sidecar
  check_count (length bytes / bytes_per_sample) metadata
  ok (record {
    byte_count = length bytes;
    n_samples = length bytes / bytes_per_sample;
    metadata = metadata;
  })

unfoldable pub make_reader : {X : Type 0} → Sidecars X → Files X → Try CaptureError IqReader
unfolding open_payload
make_reader json files = open_payload json files.payload files.sidecar

-- `read_all` of the bytes that the file holds by then.
unfoldable pub read_all : IqReader → List ℕ → Try CaptureError (List Iq)
read_all r raw = do
  refuse (not (length raw == r.byte_count)) malformed_iq_file
  uint8_pair_to_complex64 raw

-- How `iter_chunks` ends behind the chunks it yielded.
pub data Ending : Type 0 where
  ended out_of_fuel : Ending
  raised : CaptureError → Ending

module _ (chunk_bytes : ℕ) where
  chunks : ℕ → List ℕ → List (List Iq) × Ending
  chunks zero rest = ([], out_of_fuel)
  chunks (suc fuel) rest =
      let raw_bytes = take chunk_bytes rest in
      let more = chunks fuel (drop chunk_bytes rest) in
      if length raw_bytes == 0
      then ([], ended)
      else if not (length raw_bytes % bytes_per_sample == 0)
      then ([], raised malformed_iq_file)
      else (pairs raw_bytes ∷ more.0, more.1)

-- `iter_chunks` over the file's bytes; a unit of fuel for each byte and one more is enough.
unfoldable pub iter_chunks : ℕ → List ℕ → List (List Iq) × Ending
unfolding chunks
iter_chunks chunk_samples bytes =
    if chunk_samples == 0
    then ([], raised value_error)
    else chunks (chunk_samples * bytes_per_sample) (suc (length bytes)) bytes

-- `np.concatenate` of the chunks.
abbrev pub joined : List (List Iq) → List Iq
joined [] = []
joined (c ∷ cs) = c ++ joined cs

abbrev pub IsChunk : ℕ → List Iq → Type 0
IsChunk chunk_samples chunk = (0 < length chunk) × (length chunk ≤ chunk_samples)

-- Twice a number, in a form that lists of bytes compute with.
abbrev double : ℕ → ℕ
double zero = zero
double (suc k) = suc (suc (double k))

double_lem : (k : ℕ) → double k ≡ k * 2
double_lem zero = refl
double_lem (suc k) = omega (arith, double_lem k)

pairs-drop :
    (k : ℕ) (bytes : List ℕ)
    → pairs (take (double k) bytes) ++ pairs (drop (double k) bytes) ≡ pairs bytes
unfolding pairs
pairs-drop zero bytes = refl
pairs-drop (suc k) [] = refl
pairs-drop (suc k) (i ∷ []) = refl
pairs-drop (suc k) (i ∷ q ∷ bytes) =
    ap (λ xs. record { re = from_byte i; im = from_byte q } ∷ xs) (pairs-drop k bytes)

pub length-pairs : (bytes : List ℕ) → length (pairs bytes) ≡ length bytes / 2
unfolding pairs
length-pairs [] = omega arith
length-pairs (i ∷ []) = omega arith
length-pairs (i ∷ q ∷ bytes) = omega (arith, length-pairs bytes)

chunks_whole :
    (k fuel : ℕ) (bytes : List ℕ)
    → 0 < k
    → length bytes % 2 ≡ 0
    → length bytes < fuel
    → ((chunks (double k) fuel bytes).1 ≡ ended)
      × (joined (chunks (double k) fuel bytes).0 ≡ pairs bytes)
      × All (IsChunk k) (chunks (double k) fuel bytes).0
unfolding chunks pairs
chunks_whole zero fuel bytes positive whole enough = absurd (omega arith)
chunks_whole (suc k) zero bytes positive whole enough = absurd (omega arith)
chunks_whole (suc k) (suc fuel) [] positive whole enough = (refl, refl, tt)
chunks_whole (suc k) (suc fuel) (b ∷ []) positive whole enough = absurd (omega arith)
chunks_whole (suc k) (suc fuel) (b ∷ c ∷ bytes) positive whole enough =
    let n = double (suc k) in
    let xs : List ℕ = b ∷ c ∷ bytes in
    let raw = take n xs in
    let twice = double_lem (suc k) in
    let size = length-take n xs in
    let left = length-drop n xs in
    let even : (length raw % 2 == 0) ≡ true = ground arith in
    let short : length raw / 2 ≤ suc k = omega arith in
    let some_here : 0 < length raw / 2 = omega arith in
    let (stop, all_there, parts) =
      chunks_whole (suc k) fuel (drop n xs) positive (omega arith) (omega arith) in
    let some_read : (length raw == 0) ≡ false = ground arith in
    rw (some_read, even)
      (
        stop,
        ap (λ ys. pairs raw ++ ys) all_there ∙ pairs-drop (suc k) xs,
        ((omega (arith, length-pairs raw), omega (arith, length-pairs raw)), parts),
      )

-- Over a file of whole samples, chunks of at least one sample come to an end without an error. None
-- is empty or longer than was asked for, and joined they are what the bulk read yields.
pub iter_chunks-read_all :
    (r : IqReader) (bytes : List ℕ) (chunk_samples : ℕ)
    → 0 < chunk_samples
    → length bytes % 2 ≡ 0
    → length bytes ≡ r.byte_count
    → ((iter_chunks chunk_samples bytes).1 ≡ ended)
      × (read_all r bytes ≡ ok (joined (iter_chunks chunk_samples bytes).0))
      × All (IsChunk chunk_samples) (iter_chunks chunk_samples bytes).0
unfolding iter_chunks read_all uint8_pair_to_complex64
iter_chunks-read_all r bytes k positive whole same =
    let (stop, all_there, parts) =
      subst
        (λ n.
          ((chunks n (suc (length bytes)) bytes).1 ≡ ended)
          × (joined (chunks n (suc (length bytes)) bytes).0 ≡ pairs bytes)
          × All (IsChunk k) (chunks n (suc (length bytes)) bytes).0)
        (double_lem k) (chunks_whole k (suc (length bytes)) bytes positive whole (omega arith)) in
    let positive_test : (k == 0) ≡ false = ground arith in
    let size : (length bytes == r.byte_count) ≡ true = ground arith in
    let even : (length bytes % 2 == 0) ≡ true = ground arith in
    (
      rw positive_test stop,
      rw (positive_test, size, even) (ap ok (sym all_there)),
      rw positive_test parts,
    )
