-- ===== src/Sdr/Capture.antt =====
-- packages/rfmesh-sdr/src/rfmesh_sdr/io: the conversion of samples, the recorder and the reader of a
-- capture. A component of a sample is a whole number of 65280ths, of which a byte's step is 512; what a
-- float rounds below that is left out. The two files of a capture are values: the bytes of the payload
-- and the text of the sidecar, which pydantic writes and validates.
pub mod Reader
pub mod Recorded
use rfmesh_workspace.Base.{
  ℕ, zero, suc, ◌+◌, ◌-◌, ◌*◌, ◌/◌, ◌%◌, ◌<◌, ◌≡◌, List, [], ◌∷◌, ◌++◌, Option, none, some, Bool,
  true, false, ltb, leb, ◌==◌, ◌||◌, not, if◌then◌else◌, length, take, drop,
}
use rfmesh_workspace.Base.Int.{ℤ, pos, negsuc}
use rfmesh_workspace.Base.Results.{Try, ok, err, refuse, ◌>>◌, ◌>>=◌}

pub data CaptureError : Type 0 where
  malformed_iq_file file_not_found runtime_error value_error validation_error : CaptureError

abbrev pub bytes_per_sample : ℕ
bytes_per_sample = 2

pub record Iq : Type 0 where
  pub re : ℤ
  pub im : ℤ

-- `np.round(x * 127.5 + 127.5)` of a number that is not negative: halves go to the even number.
abbrev pub round_half_even : ℕ → ℕ
round_half_even n =
    if ltb (n % 512) 256
    then n / 512
    else if ltb 256 (n % 512)
    then n / 512 + 1
    else if n / 512 % 2 == 0
    then n / 512
    else n / 512 + 1

abbrev pub clip_byte : ℕ → ℕ
clip_byte n = if ltb 255 n then 255 else n

-- A component as a byte; below -1 it is rounded to 0 or less, which is clipped.
unfoldable pub to_byte : ℤ → ℕ
to_byte (pos n) = clip_byte (round_half_even (65280 + n))
to_byte (negsuc n) = clip_byte (round_half_even (65280 - (n + 1)))

-- `(b - 127.5) / 127.5`
unfoldable pub from_byte : ℕ → ℤ
from_byte b = if leb 65280 (512 * b) then pos (512 * b - 65280) else negsuc (65280 - 512 * b - 1)

unfoldable pub complex64_to_uint8_pair : List Iq → List ℕ
complex64_to_uint8_pair [] = []
complex64_to_uint8_pair (x ∷ xs) = to_byte x.re ∷ (to_byte x.im ∷ complex64_to_uint8_pair xs)

unfoldable pub pairs : List ℕ → List Iq
pairs (i ∷ q ∷ raw) = record { re = from_byte i; im = from_byte q } ∷ pairs raw
pairs _ = []

unfoldable pub uint8_pair_to_complex64 : List ℕ → Try CaptureError (List Iq)
uint8_pair_to_complex64 raw = refuse (not (length raw % 2 == 0)) value_error >> ok (pairs raw)

-- `IQMetadata`; texts and times are numbers that stand for them. The serial number and the gain go the
-- way of `source` and are left out.
pub record IqMetadata : Type 0 where
  pub sample_rate_hz : ℕ
  pub center_freq_hz : ℕ
  pub n_samples : ℕ
  pub start_time_utc : ℕ
  pub source : Option ℕ
  pub notes : Option ℕ

abbrev pub IsValidMetadata : IqMetadata → Type 0
IsValidMetadata m = (0 < m.sample_rate_hz) × (0 < m.center_freq_hz) × (0 < m.n_samples)

-- The fields' bounds, as pydantic checks them when a value is made.
unfoldable pub make_metadata : IqMetadata → Try CaptureError IqMetadata
make_metadata m = do
  refuse (m.sample_rate_hz == 0) validation_error
  refuse (m.center_freq_hz == 0) validation_error
  refuse (m.n_samples == 0) validation_error
  ok m

-- `model_dump_json` and `model_validate_json`, over texts of type X.
pub record Sidecars (X : Type 0) : Type 0 where
  pub model_dump_json : IqMetadata → X
  pub model_validate_json : X → Option IqMetadata
  pub validate-dump :
      (m : IqMetadata) → IsValidMetadata m → model_validate_json (model_dump_json m) ≡ some m

pub record Files (X : Type 0) : Type 0 where
  pub payload : Option (List ℕ)
  pub sidecar : Option X

-- `_fh` and the paths are set from `start` to `close`; `handle` says whether `_fh` is.
pub record IqRecorder : Type 0 where
  pub sample_rate_hz : ℕ
  pub center_freq_hz : ℕ
  pub source : Option ℕ
  pub notes : Option ℕ
  pub handle : Bool
  pub n_samples_written : ℕ
  pub start_time_utc : Option ℕ
  pub closed : Bool

unfoldable pub make_recorder : ℕ → ℕ → Option ℕ → Option ℕ → Try CaptureError IqRecorder
make_recorder sample_rate_hz center_freq_hz source notes = do
  refuse (sample_rate_hz == 0) value_error
  refuse (center_freq_hz == 0) value_error
  ok (record {
    sample_rate_hz = sample_rate_hz;
    center_freq_hz = center_freq_hz;
    source = source;
    notes = notes;
    handle = false;
    n_samples_written = 0;
    start_time_utc = none;
    closed = false;
  })

abbrev pub written_so_far : Option (List ℕ) → List ℕ
written_so_far none = []
written_so_far (some bytes) = bytes

module _ {X : Type 0} where
  -- `start`: the payload is opened with "wb", which empties it.
  unfoldable pub start : ℕ → IqRecorder → Files X → Try CaptureError (IqRecorder × Files X)
  start now r files = do
    refuse (r.handle || r.closed) runtime_error
    ok (record r { handle = true; start_time_utc = some now }, record files { payload = some [] })

  unfoldable pub write : List Iq → IqRecorder → Files X → Try CaptureError (IqRecorder × Files X)
  write samples r files = do
    refuse (not r.handle) runtime_error
    refuse r.closed runtime_error
    ok (
      record r { n_samples_written = r.n_samples_written + length samples },
      record files {
        payload = some (written_so_far files.payload ++ complex64_to_uint8_pair samples);
      },
    )

module _ {X : Type 0} (json : Sidecars X) where
  open json use {model_dump_json}

  -- `close` behind the closing of the handle: the sidecar, or the exception.
  leave :
      Try CaptureError IqMetadata
      → IqRecorder
      → Files X
      → Try CaptureError (Unit {0}) × IqRecorder × Files X
  leave (err e) r files = (err e, r, files)
  leave (ok m) r files =
      (ok tt, record r { closed = true }, record files { sidecar = some (model_dump_json m) })

  finish : Option ℕ → IqRecorder → Files X → Try CaptureError (Unit {0}) × IqRecorder × Files X
  unfolding leave
  finish none r files = (err runtime_error, r, files)
  finish (some start_time) r files =
      leave
        (make_metadata (record {
          sample_rate_hz = r.sample_rate_hz;
          center_freq_hz = r.center_freq_hz;
          n_samples = r.n_samples_written;
          start_time_utc = start_time;
          source = r.source;
          notes = r.notes;
        }))
        r files

  unfoldable pub close : IqRecorder → Files X → Try CaptureError (Unit {0}) × IqRecorder × Files X
  unfolding finish
  close r files =
      if r.closed
      then (ok tt, r, files)
      else if not r.handle
      then (ok tt, record r { closed = true }, files)
      else finish r.start_time_utc (record r { handle = false }) files
