-- ===== src/Sdr/Loopback.antt =====
-- packages/rfmesh-sdr/src/rfmesh_sdr/simulator/loopback_channel.py and synthetic_transmitter.py: the
-- channel that a transmitter writes and a receiver reads. An array of samples is a list, so it has one
-- dimension, and a count of samples is a natural number.
pub mod Fifo
use rfmesh_workspace.Base.{
  ℕ, zero, suc, ◌<◌, ◌≤◌, ◌≡◌, List, [], ◌∷◌, ◌++◌, Option, none, some, Bool, true, false, ltb,
  ◌==◌, not, if◌then◌else◌, length, take, drop, map,
}
use rfmesh_workspace.Base.Results.{Try, ok, err, refuse, ◌>>◌, ◌>>=◌}

pub data SdrError : Type 0 where
  receiver_not_open invalid_read_size buffer_error : SdrError
  transmitter_not_open invalid_write_size value_error : SdrError

-- numpy and its random generator: samples of type A, taps of type T, ratios of type S, real draws of
-- type F, generators of type R. `convolve` is `np.convolve(_, _, mode="same")` and `standard_normal`
-- a draw of so many numbers.
pub record Numpy (A T S F R : Type 0) : Type 0 where
  pub is_one : T → Bool
  pub convolve : List A → List T → List A
  pub standard_normal : R → ℕ → List F × R
  pub complex : F → F → A
  pub scale : S → A → A
  pub add : A → A → A
  pub length-convolve :
      (xs : List A) (taps : List T)
      → length (convolve xs taps)
        ≡ (if ltb (length xs) (length taps) then length taps else length xs)
  pub length-standard_normal : (r : R) (n : ℕ) → length (standard_normal r n).0 ≡ n

pub record LoopbackChannel (A T S R : Type 0) : Type 0 where
  pub chip_snr_db : Option S
  pub taps : List T
  pub rng : R
  pub buffer : List A

-- An operation of two arrays of one size, entry by entry.
abbrev pub entrywise : {A B C : Type 0} → (A → B → C) → List A → List B → List C
entrywise f [] ys = []
entrywise f (x ∷ xs) [] = []
entrywise f (x ∷ xs) (y ∷ ys) = f x y ∷ entrywise f xs ys

module _ {A T S R : Type 0} where
  -- `LoopbackChannel.__init__`; `rng` is the generator of the seed.
  pub make_channel : ℕ → Option S → List T → R → Try SdrError (LoopbackChannel A T S R)
  make_channel sample_rate_hz chip_snr_db taps rng = do
    refuse (sample_rate_hz == 0) value_error
    refuse (length taps == 0) value_error
    ok (record { chip_snr_db = chip_snr_db; taps = taps; rng = rng; buffer = [] })

  unfoldable pub available : LoopbackChannel A T S R → ℕ
  available c = length c.buffer

  unfoldable pub reset : LoopbackChannel A T S R → LoopbackChannel A T S R
  reset c = record c { buffer = [] }

  -- `read`
  unfoldable pub read_channel :
      LoopbackChannel A T S R → ℕ → Try SdrError (List A) × LoopbackChannel A T S R
  read_channel c n_samples =
      if n_samples == 0
      then (err value_error, c)
      else if ltb (length c.buffer) n_samples
      then (err buffer_error, c)
      else (ok (take n_samples c.buffer), record c { buffer = drop n_samples c.buffer })

module _ {A T S F R : Type 0} (np : Numpy A T S F R) where
  open np use {is_one, convolve, standard_normal, complex, scale, add}

  abbrev pub is_identity : List T → Bool
  is_identity (tap ∷ []) = is_one tap
  is_identity _ = false

  -- `_apply_multipath`
  unfoldable pub apply_multipath : LoopbackChannel A T S R → List A → List A
  apply_multipath c x = if is_identity c.taps then x else convolve x c.taps

  -- `_apply_awgn`
  abbrev pub awgn_noise : S → R → ℕ → List A × R
  awgn_noise snr rng n =
      let re = standard_normal rng n in
      let im = standard_normal re.1 n in (map (scale snr) (entrywise complex re.0 im.0), im.1)

  unfoldable pub apply_awgn : Option S → R → List A → List A × R
  apply_awgn none rng x = (x, rng)
  apply_awgn (some snr) rng x =
      let drawn = awgn_noise snr rng (length x) in (entrywise add x drawn.0, drawn.1)

  -- What the channel makes of a block, with the generator behind it.
  unfoldable pub impaired : LoopbackChannel A T S R → List A → List A × R
  impaired c iq = apply_awgn c.chip_snr_db c.rng (apply_multipath c iq)

  -- `write`
  unfoldable pub write_channel :
      LoopbackChannel A T S R → List A → Try SdrError ℕ × LoopbackChannel A T S R
  write_channel c iq = if length iq == 0 then (err value_error, c) else (
    ok (length iq),
    record c { rng = (impaired c iq).1; buffer = c.buffer ++ (impaired c iq).0 },
  )

-- A transmitter and a receiver that share a channel: `_is_open` of either.
pub record Pair (A T S R : Type 0) : Type 0 where
  pub channel : LoopbackChannel A T S R
  pub transmitter_open : Bool
  pub receiver_open : Bool

module _ {A T S R : Type 0} where
  -- `open` and `close` of the transmitter and of the receiver.
  unfoldable pub set_transmitter : Bool → Pair A T S R → Pair A T S R
  set_transmitter opened p = record p { transmitter_open = opened }

  unfoldable pub set_receiver : Bool → Pair A T S R → Pair A T S R
  set_receiver opened p = record p { receiver_open = opened }

  abbrev pub with_channel :
      {B : Type 0} → Pair A T S R → B × LoopbackChannel A T S R → B × Pair A T S R
  with_channel p (b, c) = (b, record p { channel = c })

  -- `LoopbackReceiver.read`
  unfoldable pub receive : Pair A T S R → ℕ → Try SdrError (List A) × Pair A T S R
  receive p n_samples =
      if not p.receiver_open
      then (err receiver_not_open, p)
      else if n_samples == 0
      then (err invalid_read_size, p)
      else with_channel p (read_channel p.channel n_samples)

-- `SyntheticTransmitter.write`
unfoldable pub transmit :
    {A T S F R : Type 0} → Numpy A T S F R → Pair A T S R → List A → Try SdrError ℕ × Pair A T S R
transmit np p iq =
    if not p.transmitter_open
    then (err transmitter_not_open, p)
    else if length iq == 0
    then (err invalid_write_size, p)
    else with_channel p (write_channel np p.channel iq)
