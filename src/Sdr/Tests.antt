-- ===== src/Sdr/Tests.antt =====
-- The loopback channel and a capture at concrete inputs.
use rfmesh_workspace.Base.{
  ℕ, ◌+◌, ◌-◌, ◌*◌, ◌≡◌, refl, List, [], ◌∷◌, ◌++◌, none, some, true, false, ltb, ◌==◌,
  if◌then◌else◌, length, replicate, length-append, length-replicate, arith,
}
use rfmesh_workspace.Base.Int.{pos, negsuc}
use rfmesh_workspace.Base.Results.{ok}
use rfmesh_workspace.Sdr.Loopback.{Numpy, Pair}
use rfmesh_workspace.Sdr.Loopback.Fifo.{
  Call, send, fetch, switch_receiver, switch_transmitter, call_all, call_all_order,
}
use rfmesh_workspace.Sdr.Capture.{
  Iq, Sidecars, Files, IqMetadata, close, complex64_to_uint8_pair, start, write, make_recorder,
  make_metadata,
}
use rfmesh_workspace.Sdr.Capture.Reader.{IqReader, make_reader, read_all}
use rfmesh_workspace.Sdr.Capture.Recorded.{
  recording, write_all, joined_blocks, AreNear, read_all-recording, sidecar_of,
}

-- Samples are numbers; a block that is shorter than the taps is filled up.
abbrev filled : List ℕ → List ℕ → List ℕ
filled xs taps = xs ++ replicate (length taps - length xs) 0

length-filled :
    (xs taps : List ℕ)
    → length (filled xs taps) ≡ (if ltb (length xs) (length taps) then length taps else length xs)
length-filled xs taps = ground (
  arith,
  length-append xs (replicate {A = ℕ} (length taps - length xs) 0),
  length-replicate {A = ℕ} (length taps - length xs) 0,
)

abbrev counting : Numpy ℕ ℕ ℕ ℕ ℕ
counting = record {
  is_one = λ t. t == 1;
  convolve = filled;
  standard_normal = λ r n. (replicate n r, r + 1);
  complex = λ a b. a + b;
  scale = λ s x. s * x;
  add = λ a b. a + b;
  length-convolve = length-filled;
  length-standard_normal = λ r n. length-replicate n r;
}

abbrev pair : Pair ℕ ℕ ℕ ℕ
pair = record {
  channel = record { chip_snr_db = some 2; taps = 1 ∷ 3 ∷ 5 ∷ []; rng = 4; buffer = 9 ∷ [] };
  transmitter_open = true;
  receiver_open = false;
}

abbrev calls : List (Call ℕ)
calls =
    fetch 1
    ∷ send (7 ∷ 8 ∷ [])
    ∷ switch_receiver true
    ∷ fetch 2
    ∷ fetch 5
    ∷ switch_transmitter false
    ∷ send (6 ∷ [])
    ∷ []

call_all_order_example :
    (call_all counting calls pair).0 ++ (call_all counting calls pair).2.channel.buffer
    ≡ (9 ∷ []) ++ (call_all counting calls pair).1
call_all_order_example = call_all_order counting calls pair

-- A sidecar's text is its metadata.
abbrev plain : Sidecars IqMetadata
plain = record {
  model_dump_json = λ m. m;
  model_validate_json = λ m. some m;
  validate-dump = λ m h. refl;
}

abbrev reader : IqReader
reader = record { byte_count = 6; n_samples = 3; metadata = none }

abbrev six_bytes : List ℕ
six_bytes = 0 ∷ 255 ∷ 127 ∷ 128 ∷ 1 ∷ 2 ∷ []

abbrev blocks : List (List Iq)
blocks =
    (record { re = pos 300; im = negsuc 65279 } ∷ [])
    ∷ (record { re = pos 65280; im = pos 0 } ∷ record { re = negsuc 0; im = pos 1 } ∷ [])
    ∷ []

abbrev nothing_yet : Files IqMetadata
nothing_yet = record { payload = none; sidecar = none }

read_all-recording_example :
    (written : List ℕ) × (r : IqReader) × (closed : Files IqMetadata) × (samples : List Iq)
    × (recording plain 2400000 915000000 none none 77 blocks nothing_yet ≡ ok closed)
    × (closed.payload ≡ some written)
    × (make_reader plain closed ≡ ok r)
    × (r.n_samples ≡ length (joined_blocks blocks))
    × (r.metadata ≡ some (sidecar_of 2400000 915000000 none none 77 r.n_samples))
    × (read_all r written ≡ ok samples)
    × AreNear samples (joined_blocks blocks)
read_all-recording_example =
    read_all-recording plain 2400000 915000000 none none 77 blocks nothing_yet (omega arith)
      (omega arith) (omega arith) (omega arith)

abbrev recorded : Files IqMetadata
recorded = record {
  payload = some (complex64_to_uint8_pair (joined_blocks blocks));
  sidecar = some (sidecar_of 2400000 915000000 none none 77 3);
}

recorded_here : recording plain 2400000 915000000 none none 77 blocks nothing_yet ≡ ok recorded
unfolding recording make_recorder start write_all write close make_metadata complex64_to_uint8_pair
recorded_here = refl
