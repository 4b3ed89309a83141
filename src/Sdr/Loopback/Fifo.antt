-- ===== src/Sdr/Loopback/Fifo.antt =====
-- The channel keeps the order of what goes through it, and how much of it there is.
use rfmesh_workspace.Base.{
  length-map, ℕ, suc, ◌+◌, ◌<◌, ◌≡◌, refl, sym, ap, ◌∙◌, List, [], ◌∷◌, ◌++◌, Option, none, some,
  Bool, true, false, ltb, ◌==◌, if◌then◌else◌, length, length-append, take-append-drop,
  append_assoc, append-nil, arith, Bool-cases, inl, inr,
}
use rfmesh_workspace.Base.Results.{Try, ok, err}
use rfmesh_workspace.Sdr.Loopback.{
  SdrError, Numpy, LoopbackChannel, Pair, entrywise, available, read_channel, is_identity,
  apply_multipath, awgn_noise, apply_awgn, impaired, write_channel, receive, transmit,
  set_transmitter, set_receiver,
}

-- What the users of a channel do with it.
pub data Call (A : Type 0) : Type 0 where
  send : List A → Call A
  fetch : ℕ → Call A
  switch_transmitter switch_receiver : Bool → Call A

-- The samples that a read handed out; none, if it failed.
abbrev pub handed : {A : Type 0} → Try SdrError (List A) → List A
handed (ok xs) = xs
handed (err e) = []

-- The block that a write took; nothing, if it failed.
abbrev pub taken : {A : Type 0} → Try SdrError ℕ → List A → List A
taken (ok n) xs = xs
taken (err e) xs = []

module _ {A T S F R : Type 0} (np : Numpy A T S F R) where
  open np use {add, scale, complex, standard_normal, length-convolve, length-standard_normal}

  -- A call's samples handed out, samples taken in, and the state behind it.
  pub call : Call A → Pair A T S R → List A × List A × Pair A T S R
  call (send iq) p =
      ([], taken (transmit np p iq).0 (impaired np p.channel iq).0, (transmit np p iq).1)
  call (fetch n) p = (handed (receive p n).0, [], (receive p n).1)
  call (switch_transmitter opened) p = ([], [], set_transmitter opened p)
  call (switch_receiver opened) p = ([], [], set_receiver opened p)

  pub call_all : List (Call A) → Pair A T S R → List A × List A × Pair A T S R
  unfolding call
  call_all [] p = ([], [], p)
  call_all (c ∷ calls) p =
      let first = call c p in
      let rest = call_all calls first.2 in (first.0 ++ rest.0, first.1 ++ rest.1, rest.2)

  call_order :
      (c : Call A) (p : Pair A T S R)
      → (call c p).0 ++ (call c p).2.channel.buffer ≡ p.channel.buffer ++ (call c p).1
  unfolding call transmit receive set_transmitter set_receiver write_channel read_channel
  call_order (send iq) p = ground (arith, append-nil p.channel.buffer)
  call_order (fetch n) p =
      ground (arith, append-nil p.channel.buffer, take-append-drop n p.channel.buffer)
  call_order (switch_transmitter opened) p = sym (append-nil p.channel.buffer)
  call_order (switch_receiver opened) p = sym (append-nil p.channel.buffer)

  -- Whatever the users call, and whatever of it fails: the samples handed out, followed by those still
  -- in the buffer, are those that were in it, followed by the blocks taken in, each as the channel
  -- impaired it, in the order of the writes.
  pub call_all_order :
      (calls : List (Call A)) (p : Pair A T S R)
      → (call_all calls p).0 ++ (call_all calls p).2.channel.buffer
        ≡ p.channel.buffer ++ (call_all calls p).1
  unfolding call_all
  call_all_order [] p = sym (append-nil p.channel.buffer)
  call_all_order (c ∷ calls) p =
      let first = call c p in
      let rest = call_all calls first.2 in
      append_assoc first.0 rest.0 rest.2.channel.buffer
      ∙ ap (λ xs. first.0 ++ xs) (call_all_order calls first.2)
      ∙ sym (append_assoc first.0 first.2.channel.buffer rest.1)
      ∙ ap (λ xs. xs ++ rest.1) (call_order c p)
      ∙ append_assoc p.channel.buffer first.1 rest.1

  length-entrywise :
      {B C D : Type 0} (f : B → C → D) (xs : List B) (ys : List C)
      → length xs ≡ length ys
      → length (entrywise f xs ys) ≡ length xs
  length-entrywise f [] ys h = refl
  length-entrywise f (x ∷ xs) [] h = absurd (omega (arith, h))
  length-entrywise f (x ∷ xs) (y ∷ ys) h = ap suc (length-entrywise f xs ys (omega (arith, h)))

  length-apply_awgn :
      (snr : Option S) (rng : R) (xs : List A) → length (apply_awgn np snr rng xs).0 ≡ length xs
  unfolding apply_awgn
  length-apply_awgn none rng xs = refl
  length-apply_awgn (some snr) rng xs =
      let re = standard_normal rng (length xs) in
      let im = standard_normal re.1 (length xs) in
      length-entrywise add xs (awgn_noise np snr rng (length xs)).0 (
        sym (
          length-map (scale snr) (entrywise complex re.0 im.0)
          ∙ length-entrywise complex re.0 im.0 (
              length-standard_normal rng (length xs)
              ∙ sym (length-standard_normal re.1 (length xs)))
          ∙ length-standard_normal rng (length xs)))

  length-apply_multipath :
      (c : LoopbackChannel A T S R) (xs : List A)
      → length (apply_multipath np c xs) ≡ (
          if is_identity np c.taps
          then length xs
          else if ltb (length xs) (length c.taps)
          then length c.taps
          else length xs)
  unfolding apply_multipath
  length-apply_multipath c xs = elim (Bool-cases (is_identity np c.taps)) [
    | inl one ↦ rw one refl
    | inr more ↦ rw more (length-convolve xs c.taps)
  ]

  -- A write of at least one sample through a transmitter that is open reports as many as it was
  -- given. What is ready for a read grows by as many if the channel has one tap of 1 or no more taps
  -- than the block has samples, and by the number of taps otherwise.
  pub available-transmit :
      (p : Pair A T S R) (iq : List A)
      → p.transmitter_open ≡ true
      → 0 < length iq
      → ((transmit np p iq).0 ≡ ok (length iq))
        × (available (transmit np p iq).1.channel
            ≡ available p.channel
              + (if is_identity np p.channel.taps
                  then length iq
                  else if ltb (length iq) (length p.channel.taps)
                  then length p.channel.taps
                  else length iq))
  unfolding transmit write_channel available impaired
  available-transmit p iq opened some_left =
      let c = p.channel in
      let kept : (length iq == 0) ≡ false = ground arith in
      let block = (apply_awgn np c.chip_snr_db c.rng (apply_multipath np c iq)).0 in
      let size : length (c.buffer ++ block) ≡ length c.buffer + _ =
        length-append c.buffer block
        ∙ ap (λ k. length c.buffer + k)
            (length-apply_awgn c.chip_snr_db c.rng (apply_multipath np c iq)
              ∙ length-apply_multipath c iq) in
      (rw (opened, kept) refl, rw (opened, kept) size)
