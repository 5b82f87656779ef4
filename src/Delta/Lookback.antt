-- ===== src/Delta/Lookback.antt =====
-- The lookback deltas of pco/src/delta.rs, on latents of `w` bits. Unchecked reads and writes of the
-- source are results `panic` out of range.
use pcodec.Common.{
  ℕ, zero, suc, ◌+◌, ◌-◌, ◌*◌, min, max, if◌then◌else◌, leb, ltb, ◌||◌, not, Bool, false, List, [],
  ◌∷◌, ◌++◌, length, take, drop, replicate,
}
use pcodec.Machine.{u32}
use pcodec.Errors.{Result, ok, panic, ◌>>=◌}
use pcodec.Slice.{index, assign}
use pcodec.Latent.{wrapping_add, wrapping_sub}
use pcodec.Delta.Consecutive.{toggle_center_in_place}
use pcodec.Metadata.DeltaEncoding.{DeltaLookbackConfig, state_n, window_n}

abbrev pub full_batch_n : ℕ
full_batch_n = 256

-- `xs[i - back]`: the subtraction must not go below zero.
abbrev pub index_back : List ℕ → ℕ → ℕ → Result ℕ
index_back xs i back = if ltb i back then panic else index xs (i - back)

module _ (w : ℕ) where
  -- The loop from the last latent down to `start`, with the number of latents left; `start` is the
  -- index of the first lookback.
  unfoldable pub encode_back : ℕ → List ℕ → ℕ → List ℕ → Result (List ℕ)
  encode_back start lookbacks zero latents = ok latents
  encode_back start lookbacks (suc left) latents = do
    lookback ← index lookbacks left
    x ← index latents (start + left)
    y ← index_back latents (start + left) lookback
    latents' ← assign latents (start + left) (wrapping_sub w x y)
    encode_back start lookbacks left latents'

  unfoldable pub encode_with_lookbacks_in_place :
      DeltaLookbackConfig → List ℕ → List ℕ → Result (List ℕ × List ℕ)
  unfolding encode_back
  encode_with_lookbacks_in_place config lookbacks latents = do
    let real_state_n = min (length latents) (state_n config)
    out ← encode_back real_state_n lookbacks (length latents - real_state_n) latents
    let state = replicate (state_n config - real_state_n) 0 ++ take real_state_n out
    ok (state, toggle_center_in_place w out)

  unfoldable pub new_lookback_window_buffer_and_pos :
      DeltaLookbackConfig → List ℕ → Result (List ℕ × ℕ)
  new_lookback_window_buffer_and_pos config state =
      let window = window_n config in
      let buffer_n = max window full_batch_n * 2 in
      if ltb window (length state)
      then panic
      else ok (
        replicate (window - length state) 0 ++ (state ++ replicate (buffer_n - window) 0),
        window,
      )

  -- The loop over the pairs of latents and lookbacks. The flag says whether a lookback beyond the
  -- window, cast to u32, was met, which is then taken for 1.
  unfoldable pub decode_loop : ℕ → ℕ → List ℕ → List ℕ → List ℕ → Bool → Result (Bool × List ℕ)
  decode_loop window pos buffer [] lookbacks oob = ok (oob, buffer)
  decode_loop window pos buffer (latent ∷ latents) [] oob = ok (oob, buffer)
  decode_loop window pos buffer (latent ∷ latents) (k ∷ lookbacks) oob = do
    let lookback = if leb k (u32 window) then k else 1
    old ← index_back buffer pos lookback
    buffer' ← assign buffer pos (wrapping_add w latent old)
    decode_loop window (pos + 1) buffer' latents lookbacks (oob || not (leb k (u32 window)))

  -- The last `window` latents before the position move to the front when a batch would not fit.
  unfoldable pub cycle_buffer : ℕ → ℕ → ℕ → List ℕ → Result (ℕ × List ℕ)
  cycle_buffer window pos batch_n buffer =
      if leb (pos + batch_n) (length buffer)
      then ok (pos, buffer)
      else if ltb pos window || ltb (length buffer) pos
      then panic
      else ok (window, take window (drop (pos - window) buffer) ++ drop window buffer)

  -- Whether the data was corrupt, the new position, the buffer and the decoded latents.
  unfoldable pub decode_with_lookbacks_in_place :
      DeltaLookbackConfig → List ℕ → ℕ → List ℕ → List ℕ → Result (Bool × ℕ × List ℕ × List ℕ)
  unfolding decode_loop cycle_buffer
  decode_with_lookbacks_in_place config lookbacks pos buffer latents = do
    let batch_n = length latents
    (start, buffer1) ← cycle_buffer (window_n config) pos batch_n buffer
    (oob, buffer2) ←
        decode_loop (window_n config) start buffer1 (toggle_center_in_place w latents) lookbacks
          false
    let end = start + batch_n
    (if ltb start (state_n config) || ltb (length buffer2) (end - state_n config)
        then panic
        else ok (oob, end, buffer2, take batch_n (drop (start - state_n config) buffer2)))
