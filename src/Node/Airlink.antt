-- ===== src/Node/Airlink.antt =====
-- packages/rfmesh-node/src/rfmesh_node/comms/comms_loop.py: from a message to the chips of a slot and
-- back. The pseudo-noise sequence, which the loop computes once, is an argument.
pub mod Noise
use rfmesh_workspace.Base.{ℕ, ◌+◌, ◌*◌, List, length}
use rfmesh_workspace.Base.Results.{Try, ok, err, ◌>>=◌}
use rfmesh_workspace.Dsss.Errors.{DsssError}
use rfmesh_workspace.Dsss.Framing.{
  FrameContents, decode_frame, preamble_len_bits, header_len_bits, crc_len_bits,
}
use rfmesh_workspace.Dsss.Spreading.{
  SignalError, Sample, Chip, bpsk_modulate, bpsk_demodulate, spread, despread,
}
use rfmesh_workspace.Node.Comms.{CommsLoop, encode_padded}

pub data AirError : Type 0 where
  frame_error : DsssError → AirError
  signal_error : SignalError → AirError

abbrev pub from_frame {ℓ} : {A : Type ℓ} → Try DsssError A → Try AirError A
from_frame (err e) = err (frame_error e)
from_frame (ok a) = ok a

abbrev pub from_signal {ℓ} : {A : Type ℓ} → Try SignalError A → Try AirError A
from_signal (err e) = err (signal_error e)
from_signal (ok a) = ok a

-- `_encode_and_spread`
unfoldable pub encode_and_spread : CommsLoop → List Chip → List ℕ → Try AirError (List Sample)
encode_and_spread s pn payload = do
  bits ← from_frame (encode_padded s payload)
  symbols ← from_signal (bpsk_modulate bits)
  from_signal (spread symbols pn)

-- `_despread_and_decode`
unfoldable pub despread_and_decode :
    CommsLoop → List Chip → List Sample → Try AirError FrameContents
despread_and_decode s pn chips = do
  symbols ← from_signal (despread chips pn)
  let bits = bpsk_demodulate symbols
  from_frame (decode_frame bits s.frame_payload_max_bytes)

abbrev pub sync_word_len_bits : ℕ
sync_word_len_bits = 32

abbrev pub fixed_overhead_bits : ℕ
fixed_overhead_bits = preamble_len_bits + sync_word_len_bits + header_len_bits + crc_len_bits

-- `_chips_per_frame`
unfoldable pub chips_per_frame : ℕ → List Chip → ℕ
chips_per_frame payload_max_bytes pn = (fixed_overhead_bits + 8 * payload_max_bytes) * length pn
