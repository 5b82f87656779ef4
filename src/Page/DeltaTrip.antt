-- ===== src/Page/DeltaTrip.antt =====
-- The deltas of one page, from the dispatch of pco/src/delta.rs to the match of
-- pco/src/latent_page_decompressor.rs that undoes them.
use pcodec.Common.{
  ℕ, zero, suc, ◌+◌, ◌≤◌, ◌<◌, ◌≡◌, refl, ap, sym, ◌∙◌, arith, Option, none, some, List, [], ◌∷◌,
  ◌++◌, length, take, drop, min, All, length-append, length-drop,
}
use pcodec.Errors.{ok}
use pcodec.Latent.{IsLatent}
use pcodec.Metadata.DeltaEncoding.{
  DeltaEncoding, no_delta, consecutive, lookback, n_latents_per_state, state_n,
}
use pcodec.Delta.Stream.{decode-encode_consecutive, length-decode_consecutive}
use pcodec.Delta.Consecutive.{decode_consecutive_in_place}
use pcodec.Delta.LookbackBatch.{decode-encode_with_lookbacks}
use pcodec.Delta.Dispatch.{slice_range_lem, put_back_lem, compute_delta_latent_var, encode_in_place}
use pcodec.Page.Decompress.{LatentPageDecompressor, with_delta, undo_delta, working_delta_state}

-- What the round trip of `n` latents in one batch asks of the encoding.
abbrev pub CanEncode : DeltaEncoding → ℕ → Type 0
CanEncode no_delta n = Unit
CanEncode (consecutive config) n = config.order ≤ n
CanEncode (lookback config) n =
    (4 ≤ config.window_n_log)
    × (config.window_n_log ≤ 31)
    × (config.state_n_log ≤ 20)
    × (config.state_n_log ≤ config.window_n_log)
    × (state_n config ≤ n)
    × (n ≤ 256)

append_nothing : (xs ys : List ℕ) → length ys ≡ 0 → xs ++ ys ≡ xs
append_nothing [] [] e = refl
append_nothing xs (y ∷ ys) e = absurd (omega arith)
append_nothing (x ∷ xs) [] e = ap (◌∷◌ x) (append_nothing xs [] e)

take_all : (n : ℕ) (xs : List ℕ) → n ≡ length xs → take n xs ≡ xs
take_all zero xs e = sym (nil_of xs e)
  where
    nil_of : (ys : List ℕ) → 0 ≡ length ys → ys ≡ []
    nil_of [] e = refl
    nil_of (y ∷ ys) e = absurd (omega arith)
take_all (suc n) [] e = refl
take_all (suc n) (x ∷ xs) e = ap (◌∷◌ x) (take_all n xs (omega arith))

module _ (w : ℕ) where
  -- The latents of a page stand between others and are of a type of a positive width; with consecutive
  -- deltas there are at least as many as the order. With lookbacks there are at most 256, at least
  -- as many as the state holds, which are at most 2^20 and at most the window, and the window has at
  -- least 16 and at most 2^31. Then computing the latents of the deltas and encoding in the range of the
  -- page succeed and keep what stands around it. A page's decompressor with that delta
  -- encoding, whose working state comes from the state that encoding gave, turns the deltas behind the
  -- first ones of the page, with as many values behind them as the encoding gives in its state, into
  -- the latents of the page.
  pub undo_delta-encode_in_place :
      (encoding : DeltaEncoding) (before xs behind tail : List ℕ) (lpd : LatentPageDecompressor)
      → 0 < w
      → CanEncode encoding (length xs)
      → All (IsLatent w) xs
      → length tail ≡ n_latents_per_state encoding
      → (deltas : Option (List ℕ)) × (stored : List ℕ) × (out : List ℕ) × (state : List ℕ)
        × (pos : ℕ) × (lpd' : LatentPageDecompressor) × (compute_delta_latent_var w encoding
              (before ++ (xs ++ behind))
              (length before)
              (length before + length xs)
            ≡ ok deltas)
        × (encode_in_place w encoding deltas
              (length before)
              (length before + length xs)
              (before ++ (xs ++ behind))
            ≡ ok (stored, before ++ (out ++ behind)))
        × (working_delta_state w encoding stored ≡ ok (state, pos))
        × (undo_delta w
              (with_delta w (record lpd { delta_encoding = encoding }) state pos)
              deltas
              (drop (n_latents_per_state encoding) out ++ tail)
            ≡ ok (lpd', xs))
  unfolding compute_delta_latent_var encode_in_place working_delta_state undo_delta
      n_latents_per_state state_n
  undo_delta-encode_in_place no_delta before xs behind tail lpd p can h n_tail = (
    none,
    [],
    xs,
    [],
    0,
    with_delta w (record lpd { delta_encoding = no_delta }) [] 0,
    refl,
    refl,
    refl,
    ap (λ ys. ok (with_delta w (record lpd { delta_encoding = no_delta }) [] 0, ys))
        (append_nothing xs tail n_tail),
  )
  undo_delta-encode_in_place (consecutive config) before xs behind tail lpd p can h n_tail =
      let (moments, buffer, runs, len, back) =
        decode-encode_consecutive w config.order xs tail p h (omega (arith, n_tail)) in
      let decoded : List ℕ × List ℕ =
        decode_consecutive_in_place w moments (drop config.order buffer ++ tail) in
      let n : length decoded.1 ≡ length xs =
        length-decode_consecutive w moments (drop config.order buffer ++ tail)
        ∙ length-append (drop config.order buffer) tail
        ∙ rw (length-drop config.order buffer, n_tail, len) (omega (arith, can)) in
      let least : min config.order (length xs) ≡ config.order = omega (arith, can) in
      let found : decoded.1 ≡ xs =
        sym (take_all (length xs) decoded.1 (sym n)) ∙ (rw least at back) in
      (
        none,
        moments,
        buffer,
        moments,
        0,
        with_delta w (record lpd { delta_encoding = consecutive config }) decoded.0 0,
        refl,
        rw (slice_range_lem before xs behind, runs)
            (ap (λ b. ok (moments, b)) (put_back_lem before xs behind buffer len)),
        refl,
        (ap
            (λ ys.
              ok
                (with_delta w (record lpd { delta_encoding = consecutive config }) decoded.0 0, ys))
            found),
      )
  undo_delta-encode_in_place (lookback config) before xs behind tail lpd p can h n_tail =
      let (low, high, given, within, some_left, batch) = can in
      let (ks, stored, out, buffer, pos, pos', buffer', chosen, coded, len, window, back) =
        decode-encode_with_lookbacks w config xs tail p low high given within some_left batch n_tail
          h in
      (
        some ks,
        stored,
        out,
        buffer,
        pos,
        with_delta w (record lpd { delta_encoding = lookback config }) buffer' pos',
        rw (slice_range_lem before xs behind, chosen) refl,
        rw (slice_range_lem before xs behind, coded)
            (ap (λ b. ok (stored, b)) (put_back_lem before xs behind out len)),
        window,
        rw back refl,
      )
